-- ===== src/ImapServer/FetchBytes/Laws.antt =====
-- Sections of a message, parts of a section, and the header fields that are selected.
use imapped_lightmode.Base.{
  ℕ, suc, ◌+◌, ◌-◌, ◌≤◌, ◌≡◌, refl, sym, ap, ◌∙◌, min, some, List, [], ◌∷◌, ◌++◌, arith, leb,
  leb→le, if◌then◌else◌, length, take, drop, take_all, length-drop, append_assoc, append-nil,
  Option-cases, Bool-cases, inl, inr,
}
use imapped_lightmode.Text.{Text}
use imapped_lightmode.Text.Find.{find, contains, find_sound, find-none, find-some}
use imapped_lightmode.Text.Decimal.{u64_max}
use imapped_lightmode.Protocol.{header, text}
use imapped_lightmode.ImapServer.FetchBytes.{crlf, split_rfc822, apply_partial, raw_fetch_bytes}

header-append-text-split :
    (raw : Text)
    → ((split_rfc822 raw).0 ++ crlf) ++ (split_rfc822 raw).1
      ≡ (if contains (crlf ++ crlf) raw then raw else raw ++ crlf)
unfolding split_rfc822
header-append-text-split raw = elim (Option-cases (find (crlf ++ crlf) raw)) [
  | inl e ↦ rw (e, find-none (crlf ++ crlf) raw e, split_rfc822) (append-nil (raw ++ crlf))
  | inr (r, e) ↦
      rw (e, find-some (crlf ++ crlf) raw r e, split_rfc822)
        (ap (λ t. t ++ drop 4 r.1) (append_assoc r.0 crlf crlf)
          ∙ append_assoc r.0 (crlf ++ crlf) (drop 4 r.1)
          ∙ sym (find_sound (crlf ++ crlf) raw r.0 r.1 e))
]

-- The header section and the text of a message are together the message, if it has an empty line;
-- if it has none, all of it is header, and a line end is added.
pub header-append-text :
    (from_utf8_lossy : Text → Text) (raw : Text)
    → raw_fetch_bytes from_utf8_lossy raw header ++ raw_fetch_bytes from_utf8_lossy raw text
      ≡ (if contains (crlf ++ crlf) raw then raw else raw ++ crlf)
unfolding raw_fetch_bytes
header-append-text from_utf8_lossy raw = header-append-text-split raw

drop_all : {A : Type 0} (n : ℕ) (xs : List A) → length xs ≤ n → drop n xs ≡ []
drop_all ℕ.zero [] h = refl
drop_all ℕ.zero (x ∷ xs) h = absurd (omega arith)
drop_all (suc n) [] h = refl
drop_all (suc n) (x ∷ xs) h = drop_all n xs (omega arith)

take-min : {A : Type 0} (n m : ℕ) (xs : List A) → length xs ≤ m → take (min n m) xs ≡ take n xs
take-min n m xs h = elim (Bool-cases (leb n m)) [
  | inl e ↦ let k : min n m ≡ n = ground arith in rw k refl
  | inr e ↦
      let k : min n m ≡ m = ground arith in
      rw k (take_all m xs h ∙ sym (take_all n xs (ground arith)))
]

min_offset :
    (offset count bound size : ℕ)
    → size ≤ bound
    → offset ≤ size
    → min (min (offset + count) bound) size - offset ≡ min count (size - offset)
min_offset offset count bound size h k = omega arith

-- A partial fetch returns the bytes from the offset on, at most as many as asked for: also where
-- the offset or the end lies beyond the section, which has at most `u64_max` bytes.
pub apply_partial-take-drop :
    (bytes : Text) (offset count : ℕ)
    → length bytes ≤ u64_max
    → apply_partial bytes (some (offset, some count)) ≡ take count (drop offset bytes)
unfolding apply_partial
apply_partial-take-drop bytes offset count h = elim (Bool-cases (leb (length bytes) offset)) [
  | inl out ↦
      rw (out, drop_all offset bytes (leb→le (length bytes) offset out))
        (sym (take_all count [] (omega arith)))
  | inr within ↦
      rw (within, min_offset offset count u64_max (length bytes) h (ground arith))
        (take-min count (length bytes - offset) (drop offset bytes)
          (omega (arith, length-drop offset bytes)))
]
