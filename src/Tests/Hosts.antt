-- ===== src/Tests/Hosts.antt =====
-- A host to run programs on: integers for doubles, and the bytes printed for the world.
use mathlib.Core.List.{◌++◌}
use basset_lang.Prelude.{
  ℕ, ◌+◌, ◌/◌, ◌%◌, ℤ, pos, pos_part, neg_part, ◌+ℤ◌, ◌-ℤ◌, ◌*ℤ◌, ltb_ℤ, Bool, true, false, not,
  ◌&&◌, ◌==◌, none, List, [], ◌∷◌,
}
use basset_lang.Host.{Host}

abbrev pub equal_ℤ : ℤ → ℤ → Bool
equal_ℤ a b = (pos_part a == pos_part b) && (neg_part a == neg_part b)

-- Files do not exist, and the terminal has no input.
abbrev pub integers : Host
integers = record {
  Double = ℤ;
  of_int = λ n. n;
  m_pi = pos 3;
  add = λ a b. a +ℤ b;
  sub = λ a b. a -ℤ b;
  mul = λ a b. a *ℤ b;
  div = λ a b. pos (pos_part a / pos_part b);
  fmod = λ a b. pos (pos_part a % pos_part b);
  pow = λ a b. a;
  neg = λ a. pos 0 -ℤ a;
  sin = λ a. a;
  cos = λ a. a;
  tan = λ a. a;
  atan = λ a. a;
  exp = λ a. a;
  log = λ a. a;
  log10 = λ a. a;
  sqrt = λ a. a;
  fabs = λ a. pos (pos_part a + neg_part a);
  floor = λ a. a;
  eq = equal_ℤ;
  lt = ltb_ℤ;
  le = λ a b. not (ltb_ℤ b a);
  to_int = λ a. a;
  to_long = λ a. a;
  to_size = pos_part;
  to_u16 = pos_part;
  to_u32 = pos_part;
  format_g = λ a. (48 + pos_part a) ∷ [];
  format_12g = λ a. (48 + pos_part a) ∷ [];
  atof = λ s. pos 0;
  World = List ℕ;
  File = ℕ;
  fopen = λ name mode w. (none, w);
  fclose = λ f w. w;
  fgetc = λ f w. (none, w);
  fputc = λ c f w. (true, w ++ (c ∷ []));
  ftell = λ f w. pos 0;
  fseek = λ f n w. (true, w);
  remove = λ s w. (false, w);
  fprintf = λ f s w. w ++ s;
  printf = λ s w. w ++ s;
  fgets = λ w. (none, w);
}
