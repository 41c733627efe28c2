-- ===== src/Pe/Stream.antt =====
-- The stream that parsers.py reads: the bytes and a position, as a `BytesIO`.
use ai_reverse_agent.Prelude.{
  ℕ, suc, ◌+◌, ◌≡◌, [], ◌∷◌, map, ltb, ◌==◌, length, drop, if◌then◌else◌,
}
use ai_reverse_agent.Result.{Result, ok, err}
use ai_reverse_agent.Text.{Text}
use ai_reverse_agent.Bytes.{Bytes, slice, from_little}

-- One constructor for each `raise`.
pub data PeError : Type 0 where
  eof_u8 eof_u16 eof_u32 no_mz_signature no_pe_signature : PeError

-- What is read, and the position behind it.
abbrev pub Reader : Type 0 → Type 0
Reader A = Bytes → ℕ → Result PeError (A × ℕ)

module _ {A : Type 0} where
  abbrev pub pure : A → Reader A
  pure a b p = ok (a, p)

  abbrev pub fail : PeError → Reader A
  fail e b p = err e

infixl 60 ◌>>=◌
unfoldable pub ◌>>=◌ : {A B : Type 0} → Reader A → (A → Reader B) → Reader B
(m >>= f) b p = elim (m b p) [ ok r ↦ f r.0 b r.1 | err e ↦ err e ]

-- stream.read(n), which reads less at the end
unfoldable pub read : ℕ → Reader Bytes
unfolding slice
read n b p = ok (slice b p (p + n), p + length (slice b p (p + n)))

-- stream.seek(p)
unfoldable pub seek : ℕ → Reader Unit
seek q b p = ok (tt, q)

abbrev first_byte : Bytes → Reader ℕ
first_byte [] = fail eof_u8
first_byte (c ∷ cs) = pure c

-- _read_u8
unfoldable pub read_u8 : Reader ℕ
unfolding read
read_u8 = read 1 >>= first_byte

-- _read_u16
unfoldable pub read_u16 : Reader ℕ
unfolding read from_little
read_u16 = read 2 >>= λ d. if ltb (length d) 2 then fail eof_u16 else pure (from_little d)

-- _read_u32
unfoldable pub read_u32 : Reader ℕ
unfolding read from_little
read_u32 = read 4 >>= λ d. if ltb (length d) 4 then fail eof_u32 else pure (from_little d)

-- decode("ascii", errors="replace")
unfoldable pub ascii : Bytes → Text
ascii = map (λ c. if ltb c 128 then c else 0xFFFD)

-- The bytes up to a NUL, and how many are read for them.
unfoldable pub until_nul : Bytes → Bytes × ℕ
until_nul [] = ([], 0)
until_nul (c ∷ cs) = let rest = until_nul cs in if c == 0 then ([], 1) else (c ∷ rest.0, suc rest.1)

-- _read_cstring
unfoldable pub read_cstring : Reader Text
unfolding until_nul ascii
read_cstring b p = let s = until_nul (drop p b) in ok (ascii s.0, p + s.1)

-- A step that reads `x` goes on with it behind it.
pub bind_lem :
    {A B : Type 0} (m : Reader A) (f : A → Reader B) (b : Bytes) (p : ℕ) (x : A) (q : ℕ)
    (r : Result PeError (B × ℕ))
    → m b p ≡ ok (x, q)
    → f x b q ≡ r
    → (m >>= f) b p ≡ r
unfolding ◌>>=◌
bind_lem m f b p x q r h k = rw (◌>>=◌, h) k
