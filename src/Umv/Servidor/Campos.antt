-- ===== src/Umv/Servidor/Campos.antt =====
-- The messages of proyectoUMV/umv.c begin with some `int`s, which the handlers copy out one by one.
use personal_copy_tp.Common.{
  ℕ, ◌^◌, ◌<◌, ◌≡◌, refl, List, ◌++◌, some, drop, encode_int, decode-encode_int,
}
use personal_copy_tp.Umv.Servidor.{campo}

abbrev pub mensaje : ℕ → ℕ → ℕ → List ℕ → List ℕ
mensaje a b c rest = encode_int a ++ (encode_int b ++ (encode_int c ++ rest))

module _ (a b c : ℕ) (rest : List ℕ) where
  pub campo-first : a < 2 ^ 32 → campo 0 (mensaje a b c rest) ≡ some a
  campo-first h = decode-encode_int a _ h

  pub campo-second : b < 2 ^ 32 → campo 4 (mensaje a b c rest) ≡ some b
  unfolding encode_int
  campo-second h = decode-encode_int b _ h

  pub campo-third : c < 2 ^ 32 → campo 8 (mensaje a b c rest) ≡ some c
  unfolding encode_int
  campo-third h = decode-encode_int c _ h

  pub drop-mensaje : drop 12 (mensaje a b c rest) ≡ rest
  unfolding encode_int
  drop-mensaje = refl
