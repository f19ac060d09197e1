-- ===== src/Protocol/Framed.antt =====
-- The client reads one block, as a part of a large file or as a bundled file.
use folder_transfer.Prelude.{
  ℕ, ◌*◌, ◌^◌, ◌<◌, ◌≡◌, refl, ap, ◌∙◌, false, List, [], ◌∷◌, ◌++◌, arith, length,
}
use folder_transfer.Text.{Text, codes, text_eq, contains_char}
use folder_transfer.Text.Number.{print_nat}
use folder_transfer.Text.Number.RoundTrip.{print_nat-IsDigits, parse_u64-print_nat}
use folder_transfer.Io.{ok}
use folder_transfer.Wire.{Transfer, write_all, copy_exact_to_writer}
use folder_transfer.Wire.Lines.{IsLine, read_exact-append}
use folder_transfer.Platform.{Zstd, IsLossless}
use folder_transfer.Client.Receive.{
  words, number_or_zero, recv_raw, recv_zip, recv_block, recv_bundle_file,
}
use folder_transfer.Protocol.{Fits, raw_line, zip_line, Block, raw, zip}
use folder_transfer.Protocol.Reading.{
  AcceptsAll, moved, raw_line-IsLine, zip_line-IsLine, words-one, words-cons, digits_no_space,
  copy_chunks-append,
}

pub number_or_zero-print_nat : (n : ℕ) → n < 2 ^ 64 → number_or_zero (print_nat n) ≡ n
number_or_zero-print_nat n h = rw (parse_u64-print_nat n h, number_or_zero)

pub words-raw_line : (n : ℕ) → words (raw_line n) ≡ codes "R" ∷ print_nat n ∷ []
words-raw_line n =
    words-cons (codes "R") (print_nat n) (unfold contains_char in refl)
    ∙ ap (λ l. codes "R" ∷ l)
        (words-one (print_nat n) (digits_no_space (print_nat n) (print_nat-IsDigits n)))

pub words-zip_line : (n m : ℕ) → words (zip_line n m) ≡ codes "Z" ∷ print_nat n ∷ print_nat m ∷ []
words-zip_line n m =
    words-cons (codes "Z") (print_nat n ++ b' ' ∷ print_nat m) (unfold contains_char in refl)
    ∙ ap (λ l. codes "Z" ∷ l)
        (words-cons (print_nat n) (print_nat m)
            (digits_no_space (print_nat n) (print_nat-IsDigits n))
          ∙ ap (λ l. print_nat n ∷ l)
              (words-one (print_nat m) (digits_no_space (print_nat m) (print_nat-IsDigits m))))

-- The buffer of the raw body.
abbrev pub buffer : ℕ
buffer = 1024 * 1024

module _ ⦃z : Zstd⦄ (lossless : IsLossless z) where
  pub recv_raw-line :
      (x rest : List ℕ) (t : Transfer)
      → Fits x
      → AcceptsAll t.out
      → t.conn.input ≡ x ++ rest
      → recv_raw (print_nat (length x) ∷ []) t ≡ (ok (length x), moved x rest t)
  recv_raw-line x rest t fits a e =
      unfold recv_raw in
      rw (number_or_zero-print_nat (length x) fits) (
        unfold copy_exact_to_writer in
        rw (copy_chunks-append 65536 (length x) x rest t (omega arith) (omega arith) a e))

  pub recv_zip-line :
      (c x rest : List ℕ) (t : Transfer)
      → Fits c
      → Fits x
      → z.decompress c (length x) ≡ ok x
      → AcceptsAll t.out
      → t.conn.input ≡ c ++ rest
      → recv_zip (print_nat (length c) ∷ print_nat (length x) ∷ []) t
        ≡ (ok (length x), moved x rest t)
  recv_zip-line c x rest t fits_c fits_x d a e =
      unfold recv_zip in
      rw (number_or_zero-print_nat (length c) fits_c, number_or_zero-print_nat (length x) fits_x)
        (rw (read_exact-append c rest t.conn e, d)
          (unfold write_all in rw (a (t.out.written ++ x))))

  -- What makes a block readable: its line, its payload, and what the two readers make of them.
  pub record Reads (w x : List ℕ) : Type 0 where
    pub header : Text
    pub payload : List ℕ
    pub parts : w ≡ header ++ 10 ∷ payload
    pub line : IsLine header
    pub no_end : text_eq header (codes "E") ≡ false
    pub not_locked : text_eq header (codes "-1") ≡ false
    pub by_block :
        (rest : List ℕ) (t : Transfer)
        → AcceptsAll t.out
        → t.conn.input ≡ payload ++ rest
        → recv_block header t ≡ (ok (length x), moved x rest t)
    pub by_file :
        (rest : List ℕ) (t : Transfer)
        → AcceptsAll t.out
        → t.conn.input ≡ payload ++ rest
        → recv_bundle_file header t ≡ (ok (length x), moved x rest t)

  pub Block-Reads : {w x : List ℕ} → Block z w x → Reads w x
  Block-Reads (raw x fits) = record {
    header = raw_line (length x);
    payload = x;
    parts = refl;
    line = raw_line-IsLine (length x);
    no_end = unfold text_eq in refl;
    not_locked = unfold text_eq in refl;
    by_block = λ rest t a e.
        unfold recv_block text_eq in
        rw (words-raw_line (length x)) (recv_raw-line x rest t fits a e);
    by_file = λ rest t a e.
        unfold recv_bundle_file text_eq in
        rw (words-raw_line (length x)) (recv_raw-line x rest t fits a e);
  }
  Block-Reads (zip x level fits_x fits_c) =
      let c = z.compress x level in
      let d : z.decompress c (length x) ≡ ok x =
        lossless.decompress-compress x level (length x) (omega arith) in
      record {
        header = zip_line (length c) (length x);
        payload = c;
        parts = refl;
        line = zip_line-IsLine (length c) (length x);
        no_end = unfold text_eq in refl;
        not_locked = unfold text_eq in refl;
        by_block = λ rest t a e.
            unfold recv_block text_eq in
            rw (words-zip_line (length c) (length x))
              (recv_zip-line c x rest t fits_c fits_x d a e);
        by_file = λ rest t a e.
            unfold recv_bundle_file text_eq in
            rw (words-zip_line (length c) (length x))
              (recv_zip-line c x rest t fits_c fits_x d a e);
      }
