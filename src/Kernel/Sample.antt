-- ===== src/Kernel/Sample.antt =====
-- The macros of linux/circ_buf.h by their documented values, for the tests.
use pi_vccu.Prelude.{◌+◌, ◌-◌, ◌%◌, min, refl}
use pi_vccu.Kernel.{CircMacros}

abbrev pub sample_circ : CircMacros
sample_circ = record {
  circ_cnt = λ head tail size. (head + size - tail) % size;
  circ_space = λ head tail size. (tail + size - (head + 1)) % size;
  circ_cnt_to_end = λ head tail size. min ((head + size - tail) % size) (size - tail);
  circ_space_to_end = λ head tail size. min ((tail + size - (head + 1)) % size) (size - head);
  circ_cnt_lem = λ k head tail h t. refl;
  circ_space_lem = λ k head tail h t. refl;
  circ_cnt_to_end_lem = λ k head tail h t. refl;
  circ_space_to_end_lem = λ k head tail h t. refl;
}
