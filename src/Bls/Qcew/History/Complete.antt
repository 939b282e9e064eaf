-- ===== src/Bls/Qcew/History/Complete.antt =====
-- That a QCEW answer leaves no gap unsaid (packages/server-bls/src/qcew-indicators.ts: `fetchRows`).
use federal_mcps.Common.{
  ℕ, suc, ◌≤◌, ◌<◌, ◌≡◌, ◌⊎◌, refl, sym, ap, subst, String, Bool, true, false, Option, none, some,
  List, [], ◌∷◌, ◌++◌, All, All-append, length, length-append, leb, leb→le, arith, if-both,
  if-cases, inl, inr,
}
use federal_mcps.Common.Members.{Member, Member-append_left, Member-append_right}
use federal_mcps.Common.Chars.{is_empty}
use federal_mcps.Common.Checked.{Checked, valid, invalid}
use federal_mcps.Bls.Qcew.Periods.{Period}
use federal_mcps.Bls.Qcew.Missing.{format_missing_periods}
use federal_mcps.Bls.Qcew.{Numbers, Headline, RowSelection, parse_qcew_row, is_none}
use federal_mcps.Bls.Qcew.History.{
  Slice, csv_text, unpublished, timed_out, Reading, Fetched, nothing_read, with_row, read_text,
  read_slices, zip, want_of, window_of, row_notes, cap_notes, missing_notes, retrieved_none,
  finish_rows, fetch_rows,
}

unpublished-timed_out : unpublished ≡ timed_out → ⊥
unpublished-timed_out e = cc

csv_text-timed_out : (csv : String) → csv_text csv ≡ timed_out → ⊥
csv_text-timed_out csv e = cc

module _ {N : Type 0} (numbers : Numbers N) (want : ℕ) (selection : RowSelection) where
  length-with_row :
      (rows : List (Headline N)) (row : Option (Headline N))
      → length (with_row numbers rows row) ≤ suc (length rows)
  length-with_row rows none = omega arith
  length-with_row rows (some row) = omega (arith, length-append rows (row ∷ []))

  -- As many rows as are wanted, at most.
  read_slices-bounded :
      (slices : List (Period × Slice)) (r : Reading numbers)
      → length r.rows < want
      → length (read_slices numbers want selection slices r).rows ≤ want
  unfolding read_slices
  read_slices-bounded [] r fewer = omega arith
  read_slices-bounded ((p, timed_out) ∷ slices) r fewer = read_slices-bounded slices _ fewer
  read_slices-bounded ((p, unpublished) ∷ slices) r fewer = read_slices-bounded slices _ fewer
  read_slices-bounded ((p, csv_text csv) ∷ slices) r fewer =
      let next = read_text numbers selection csv r in
      let longer = length-with_row r.rows (parse_qcew_row numbers csv selection) in
      if-both (λ (x : Reading numbers). length x.rows ≤ want) (is_empty csv)
        (read_slices-bounded slices _ fewer)
        (if-cases (λ (x : Reading numbers). length x.rows ≤ want) (leb want (length next.rows))
          (λ full. omega (arith, longer, fewer))
          (λ short. read_slices-bounded slices next (ground (arith, short))))

  -- What was missed stays missed.
  read_slices-kept :
      (slices : List (Period × Slice)) (r : Reading numbers) (p : Period)
      → Member p r.missing
      → Member p (read_slices numbers want selection slices r).missing
  unfolding read_slices
  read_slices-kept [] r p m = m
  read_slices-kept ((q, timed_out) ∷ slices) r p m =
      read_slices-kept slices _ p (Member-append_left p r.missing (q ∷ []) m)
  read_slices-kept ((q, unpublished) ∷ slices) r p m = read_slices-kept slices _ p m
  read_slices-kept ((q, csv_text csv) ∷ slices) r p m =
      let next = read_text numbers selection csv r in
      if-both (λ (x : Reading numbers). Member p x.missing) (is_empty csv)
        (read_slices-kept slices _ p m)
        (if-both (λ (x : Reading numbers). Member p x.missing) (leb want (length next.rows)) m
          (read_slices-kept slices next p m))

  Member-last : (p : Period) (l : List Period) → Member p (l ++ p ∷ [])
  Member-last p [] = inl refl
  Member-last p (q ∷ l) = inr (Member-last p l)

  abbrev IsSeen : Period → Reading numbers → Type 0
  IsSeen p x = Member p x.missing ⊎ (want ≤ length x.rows)

  -- A slice that timed out is missed, where not as many rows as are wanted came before it.
  read_slices-missed :
      (slices : List (Period × Slice)) (r : Reading numbers) (p : Period)
      → Member (p, timed_out) slices
      → IsSeen p (read_slices numbers want selection slices r)
  unfolding read_slices
  read_slices-missed [] r p m = absurd m
  read_slices-missed ((q, timed_out) ∷ slices) r p m = elim m [
    | inl e ↦ inl (
        read_slices-kept slices _ p (
          subst (λ x. Member p (r.missing ++ x ∷ [])) (ap (λ (x : Period × Slice). x.0) (sym e))
            (Member-last p r.missing)))
    | inr later ↦ read_slices-missed slices _ p later
  ]
  read_slices-missed ((q, unpublished) ∷ slices) r p m = elim m [
    | inl e ↦ absurd (unpublished-timed_out (ap (λ (x : Period × Slice). x.1) e))
    | inr later ↦ read_slices-missed slices _ p later
  ]
  read_slices-missed ((q, csv_text csv) ∷ slices) r p m = elim m [
    | inl e ↦ absurd (csv_text-timed_out csv (ap (λ (x : Period × Slice). x.1) e))
    | inr later ↦
        let next = read_text numbers selection csv r in
        if-both (IsSeen p) (is_empty csv) (read_slices-missed slices _ p later) (
          if-cases (IsSeen p) (leb want (length next.rows))
            (λ full. inr (leb→le want (length next.rows) full))
            (λ short. read_slices-missed slices next p later))
  ]

  -- A row is that of a published slice.
  abbrev pub IsRead : List (Period × Slice) → Headline N → Type 0
  IsRead slices h =
      (p : Period) × (csv : String) × Member (p, csv_text csv) slices
      × (parse_qcew_row numbers csv selection ≡ some h)

  IsRead-later :
      (slice : Period × Slice) (slices : List (Period × Slice)) (h : Headline N)
      → IsRead slices h
      → IsRead (slice ∷ slices) h
  IsRead-later slice slices h (p, csv, m, e) = (p, csv, inr m, e)

  with_row-All :
      (P : Headline N → Type 0) (rows : List (Headline N)) (row : Option (Headline N))
      → All P rows
      → ((h : Headline N) → row ≡ some h → P h)
      → All P (with_row numbers rows row)
  with_row-All P rows none h k = h
  with_row-All P rows (some row) h k = All-append P rows (row ∷ []) h (k row refl, tt)

  read_slices-All :
      (all slices : List (Period × Slice)) (r : Reading numbers)
      → ((s : Period × Slice) → Member s slices → Member s all)
      → All (IsRead all) r.rows
      → All (IsRead all) (read_slices numbers want selection slices r).rows
  unfolding read_slices
  read_slices-All all [] r within h = h
  read_slices-All all ((q, timed_out) ∷ slices) r within h =
      read_slices-All all slices _ (λ s m. within s (inr m)) h
  read_slices-All all ((q, unpublished) ∷ slices) r within h =
      read_slices-All all slices _ (λ s m. within s (inr m)) h
  read_slices-All all ((q, csv_text csv) ∷ slices) r within h =
      let next = read_text numbers selection csv r in
      let later = λ (s : Period × Slice) (m : Member s slices). within s (inr m) in
      let read =
        with_row-All (IsRead all) r.rows (parse_qcew_row numbers csv selection) h
          (λ row e. (q, csv, within (q, csv_text csv) (inl refl), e)) in
      if-both (λ (x : Reading numbers). All (IsRead all) x.rows) (is_empty csv)
        (read_slices-All all slices _ later h)
        (if-both (λ (x : Reading numbers). All (IsRead all) x.rows) (leb want (length next.rows))
          read (read_slices-All all slices next later read))

nonempty : {A : Type 0} (l : List A) → 0 < length l → is_none l ≡ false
nonempty [] h = absurd (omega arith)
nonempty (x ∷ l) h = refl

some-none : {A : Type 0} (l : List A) (x : A) → Member x l → is_none l ≡ false
some-none [] x m = absurd m
some-none (y ∷ l) x m = refl

module _ {N : Type 0} (numbers : Numbers N) (fetched : String → List Period → List Slice)
    (area : String) (selection : RowSelection) (periods : List Period) (latest_only : Bool) where
  abbrev pub slices_of : List (Period × Slice)
  slices_of =
      zip numbers (window_of numbers latest_only periods)
        (fetched area (window_of numbers latest_only periods))

  -- The slice of a period timed out.
  abbrev pub IsMissed : Period → Type 0
  IsMissed p = Member (p, timed_out) slices_of

  -- One of the notes names a list of periods that this one is among.
  abbrev pub IsNamed : Period → List String → Type 0
  IsNamed p notes =
      (missing : List Period) × Member p missing × Member (format_missing_periods missing) notes

  abbrev pub IsComplete : Fetched numbers → Type 0
  IsComplete f =
      (length f.rows ≤ want_of numbers latest_only)
      × All (IsRead numbers (want_of numbers latest_only) selection slices_of) f.rows
      × ((p : Period)
          → IsMissed p
          → IsNamed p f.notes ⊎ (want_of numbers latest_only ≤ length f.rows))
      × ((p : Period) → IsMissed p → f.any_published ≡ false → is_none f.rows ≡ false)

  abbrev IsCompleteIn : Checked (Fetched numbers) → Type 0
  IsCompleteIn (invalid message) = Unit
  IsCompleteIn (valid f) = IsComplete f

  positive : 0 < want_of numbers latest_only
  positive = elim latest_only as (λ b. 0 < want_of numbers b) [
    | true ↦ omega arith
    | false ↦ omega arith
  ]

  abbrev reading : Reading numbers
  reading =
      read_slices numbers (want_of numbers latest_only) selection slices_of (nothing_read numbers)

  seen :
      (p : Period) → IsMissed p → IsSeen numbers (want_of numbers latest_only) selection p reading
  seen p missed =
      read_slices-missed numbers (want_of numbers latest_only) selection slices_of
        (nothing_read numbers) p missed

  named :
      (p : Period)
      → Member p reading.missing
      → IsNamed p (row_notes numbers latest_only periods reading)
  named p m = (
    reading.missing,
    m,
    Member-append_right (format_missing_periods reading.missing)
        (cap_notes numbers latest_only periods reading) (missing_notes numbers reading.missing)
        (rw (some-none reading.missing p m) (inl refl)),
  )

  finish_rows-IsComplete : IsCompleteIn (finish_rows numbers area latest_only periods reading)
  finish_rows-IsComplete =
      if-cases IsCompleteIn (retrieved_none numbers reading) (λ refused. tt)
        (λ (answered : retrieved_none numbers reading ≡ false). (
          read_slices-bounded numbers _ selection slices_of (nothing_read numbers) positive,
          read_slices-All numbers _ selection slices_of slices_of (nothing_read numbers) (λ s m. m)
              tt,
          λ p missed. elim (seen p missed) [ inl m ↦ inl (named p m) | inr full ↦ inr full ],
          λ p missed nothing. elim (seen p missed) [
            | inl m ↦
                let there = some-none reading.missing p m in
                ground (arith, answered, nothing, there)
            | inr full ↦ nonempty reading.rows (omega (arith, full, positive))
          ],
        ))

  -- Of the slices of a call's periods, at most as many rows are answered as are wanted, each read from a
  -- slice that was published; where fewer are, a note names every period whose slice timed out; and an
  -- answer without rows, of which nothing was published, is given only when no slice timed out.
  pub fetch_rows-IsComplete :
      (f : Fetched numbers)
      → fetch_rows numbers fetched area selection periods latest_only ≡ valid f
      → IsComplete f
  unfolding fetch_rows
  fetch_rows-IsComplete f e = subst IsCompleteIn e finish_rows-IsComplete
