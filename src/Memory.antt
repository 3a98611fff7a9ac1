-- ===== src/Memory.antt =====
-- Streams in memory and a toy cipher, over which the runs of the components stand.
use tg_ws_keenetic.Base.{
  ℕ, ◌+◌, ◌%◌, ◌≡◌, refl, sym, ap, ◌∙◌, ◌++◌, arith, leb, if◌then◌else◌, Bool-cases, inl, inr,
  length, get_or, take, drop, length-take, take-append-drop, Result, ok, err, ErrorKind, ok_inj,
}
use tg_ws_keenetic.Base.Bytes.{Bytes}
use tg_ws_keenetic.Base.Wires.{Reader, Writer}
use tg_ws_keenetic.Crypto.{Primitives, xor_from}

-- All that is written is kept.
abbrev pub kept : Writer
kept = record {
  Inner = Bytes;
  write_all = λ s bs. (ok tt, s ++ bs);
  flush = λ s. (ok tt, s);
  written = λ s. s;
  write_all_writes = λ s bs s' e. sym (ap (λ t. t.1) e);
  flush_keeps = λ s. refl;
}

unfoldable pub exact : Bytes → ℕ → Result Bytes × Bytes
exact s n =
    if leb n (length s) then (ok (take n s), drop n s) else (err ErrorKind.unexpected_eof, s)

pub exact_takes :
    (s : Bytes) (n : ℕ) (d s' : Bytes) → exact s n ≡ (ok d, s') → (s ≡ d ++ s') × (length d ≡ n)
unfolding exact
exact_takes s n d s' e = elim (Bool-cases (leb n (length s))) [
  | inl t ↦
      let same : take n s ≡ d = ok_inj (ap (λ t. t.0) (simp t at e)) in
      let left : drop n s ≡ s' = ap (λ t. t.1) (simp t at e) in
      (
        sym (take-append-drop n s) ∙ ap (λ x. x ++ drop n s) same ∙ ap (λ x. d ++ x) left,
        ground (arith, t, ap length (sym same), length-take n s),
      )
  | inr f ↦ cc (ap (λ t. t.0) (simp f at e))
]

-- What there is at once.
abbrev pub text : Reader
text = record {
  Inner = Bytes;
  read = λ s room. (ok (take room s), drop room s);
  read_exact = exact;
  unread = λ s. s;
  read_takes = λ s room d s' e.
      sym (take-append-drop room s)
      ∙ ap (λ x. x ++ drop room s) (ok_inj (ap (λ t. t.0) e))
      ∙ ap (λ x. d ++ x) (ap (λ t. t.1) e);
  read_fits =
      λ s room d s' e. omega (arith, length-take room s, ap length (ok_inj (ap (λ t. t.0) e)));
  read_exact_takes = λ s n d s' e. (exact_takes s n d s' e).0;
  read_exact_fills = λ s n d s' e. (exact_takes s n d s' e).1;
}

-- A cipher whose key bytes count up from the first byte of its key.
abbrev pub toy : Primitives
toy = record {
  AesCtr = ℕ;
  new = λ key iv. get_or key 0 0;
  apply_keystream = λ c bs. (xor_from (λ i. (c + i) % 256) 0 bs, c + length bs);
  sha256 = λ bs. bs;
  key_byte = λ c i. (c + i) % 256;
  apply_combines = λ c bs. refl;
  apply_moves = λ c bs i. ap (λ n. n % 256) (omega arith);
  key_byte-IsByte = λ c i. omega arith;
}
