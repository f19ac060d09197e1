-- ===== src/Server/Reading.antt =====
-- `read_block` fills its buffer as far as the file goes, however short the single reads are.
use folder_transfer.Prelude.{
  ℕ, zero, suc, ◌-◌, ◌≤◌, min, ◌≡◌, refl, sym, ap, ◌∙◌, true, List, [], ◌∷◌, ◌++◌, arith, ◌==◌,
  if◌then◌else◌, length, take, drop, length-take, append-nil, append_assoc, Bool-cases, inl, inr,
}
use folder_transfer.Io.{Io, ok}
use folder_transfer.Server.{File, read, read_rounds, read_block}

-- Every read succeeds.
abbrev pub IsReadable : File → Type 0
IsReadable f = (n : ℕ) → f.readable n ≡ true

module _ {A : Type 0} where
  pub take-nil : (n : ℕ) → take {A = A} n [] ≡ []
  take-nil zero = refl
  take-nil (suc n) = refl

  pub drop-nil : (n : ℕ) → drop {A = A} n [] ≡ []
  drop-nil zero = refl
  drop-nil (suc n) = refl

  take_parts :
      (n want : ℕ) (c : List A)
      → n ≤ want
      → take n c ++ take (want - length (take n c)) (drop n c) ≡ take want c
  take_parts zero want c h = ap (λ k. take k c) (omega arith)
  take_parts (suc n) zero c h = absurd (omega arith)
  take_parts (suc n) (suc want) [] h = take-nil (suc want - 0)
  take_parts (suc n) (suc want) (x ∷ c) h =
      ap (λ k. x ∷ (take n c ++ take k (drop n c))) (omega arith)
      ∙ ap (λ l. x ∷ l) (take_parts n want c (omega arith))

  drop_parts :
      (n want : ℕ) (c : List A)
      → n ≤ want
      → drop (want - length (take n c)) (drop n c) ≡ drop want c
  drop_parts zero want c h = ap (λ k. drop k c) (omega arith)
  drop_parts (suc n) zero c h = absurd (omega arith)
  drop_parts (suc n) (suc want) [] h = drop-nil (suc want - 0)
  drop_parts (suc n) (suc want) (x ∷ c) h =
      ap (λ k. drop k (drop n c)) (omega arith) ∙ drop_parts n want c (omega arith)

-- The file behind `n` bytes.
abbrev pub past : ℕ → File → File
past n f = record f { content = drop n f.content }

abbrev grain_of : ℕ → File → ℕ
grain_of want f = min want (suc (f.grain (length f.content)))

read_readable :
    (want : ℕ) (f : File)
    → IsReadable f
    → read want f ≡ ok (take (grain_of want f) f.content, past (grain_of want f) f)
unfolding read
read_readable want f h = rw (h (length f.content))

nothing_left :
    (want g : ℕ) (c : List ℕ)
    → length (take (min want (suc g)) c) ≡ 0
    → (take want c ≡ []) × (drop (min want (suc g)) c ≡ drop want c)
nothing_left zero g c h =
    let none_read : min 0 (suc g) ≡ 0 = omega arith in (refl, ap (λ k. drop k c) none_read)
nothing_left (suc want) g [] h = (refl, drop-nil (min (suc want) (suc g)))
nothing_left (suc want) g (x ∷ c) h =
    absurd (omega (arith, length-take (min (suc want) (suc g)) (x ∷ c)))

read_rounds-step :
    (k want : ℕ) (buf : List ℕ) (f : File) {b : List ℕ} {g : File}
    → read want f ≡ ok (b, g)
    → read_rounds (suc k) want buf f
      ≡ (if length b == 0 then ok (buf, g) else read_rounds k (want - length b) (buf ++ b) g)
unfolding read_rounds
read_rounds-step k want buf f e = rw (e, read_rounds)

-- The first round: either nothing was read, and then there is nothing to read, or the rest is shorter.
read_rounds-readable :
    (k want : ℕ) (buf : List ℕ) (f : File)
    → want ≤ k
    → IsReadable f
    → read_rounds k want buf f ≡ ok (buf ++ take want f.content, past want f)
read_rounds-readable zero zero buf f h r =
    unfold read_rounds in ap (λ b. ok (b, f)) (sym (append-nil buf))
read_rounds-readable zero (suc want) buf f h r = absurd (omega arith)
read_rounds-readable (suc k) want buf f h r =
    let n = grain_of want f in
    let c = f.content in
    let b = take n c in
    let whole : (l : List ℕ) → List ℕ → Io (List ℕ × File) =
      λ l rest. ok (l, record f { content = rest }) in
    elim (Bool-cases (length b == 0)) [
      | inl nothing ↦
          let (no_bytes, same) = nothing_left want (f.grain (length c)) c (ground arith) in
          read_rounds-step k want buf f (read_readable want f r)
          ∙ rw nothing (
              ap (λ l. whole l (drop n c))
                (sym (append-nil buf) ∙ ap (λ l. buf ++ l) (sym no_bytes))
              ∙ ap (whole (buf ++ take want c)) same)
      | inr something ↦
          read_rounds-step k want buf f (read_readable want f r)
          ∙ rw something (
              read_rounds-readable k (want - length b) (buf ++ b) (past n f) (ground arith) r
              ∙ ap (λ l. whole l (drop (want - length b) (drop n c)))
                  (append_assoc buf b (take (want - length b) (drop n c))
                    ∙ ap (λ l. buf ++ l) (take_parts n want c (omega arith)))
              ∙ ap (whole (buf ++ take want c)) (drop_parts n want c (omega arith)))
    ]

-- On a file whose every read succeeds, `read_block` returns the next `want` bytes, or all that are left, and
-- moves behind them, however short the single reads are.
pub read_block-readable :
    (want : ℕ) (f : File) → IsReadable f → read_block want f ≡ ok (take want f.content, past want f)
unfolding read_block
read_block-readable want f r = read_rounds-readable want want [] f (omega arith) r
