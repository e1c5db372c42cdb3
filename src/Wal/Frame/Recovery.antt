-- ===== src/Wal/Frame/Recovery.antt =====
-- The scan recovers what was framed: whole files, and files cut anywhere by a crash.
use aether_engine.Prelude.{
  ℕ, zero, suc, ◌+◌, ◌-◌, ◌^◌, ◌≤◌, ◌<◌, ◌≡◌, refl, ap, ◌∙◌, subst, Bool, true, List, [], ◌∷◌, ◌++◌,
  nat_eq, length, take, arith, All, length-append, take-append_le, take-append_ge, length-take_lt,
}
use native.Mathlib.Decide.{dec_lt}
use aether_engine.Wal.State.{WalRecord}
use aether_engine.Wal.Frame.{Codec, Scan, frame, frames, stop, push, scan_from, scan}
use aether_engine.Wal.Frame.Reading.{
  header-short, head_eq, length-frame, scan_from-none, scan_from-frame, scan_from-torn,
}

module _ {LogId Entry : Type 0} (codec : Codec LogId Entry) where
  open codec use {serialize}

  abbrev pub Fits : List (WalRecord LogId Entry) → Type 0
  Fits = All (λ r. length (serialize r) < 2 ^ 32)

  abbrev pub size : List (WalRecord LogId Entry) → ℕ
  size rs = length (frames codec rs)

  size-cons :
      (r : WalRecord LogId Entry) (rs : List (WalRecord LogId Entry))
      → size (r ∷ rs) ≡ 8 + length (serialize r) + size rs
  unfolding frames
  size-cons r rs = omega (
    arith,
    length-append (frame codec (serialize r)) (frames codec rs),
    length-frame codec (serialize r),
  )

  abbrev whole : List (WalRecord LogId Entry) → ℕ → Scan LogId Entry
  whole rs good = record { records = rs; good = good; clean = true }

  -- A scan of framed records, in enough fuel, reads all of them and is clean.
  scan_from-frames :
      (rs : List (WalRecord LogId Entry)) (fuel offset : ℕ)
      → Fits rs
      → size rs < fuel
      → scan_from codec fuel offset (frames codec rs) ≡ whole rs (offset + size rs)
  unfolding frames
  scan_from-frames rs zero offset f h = absurd (omega arith)
  scan_from-frames [] (suc fuel) offset f h =
      scan_from-none codec fuel offset [] (header-short [] (omega arith))
      ∙ ap (whole []) (omega arith)
  scan_from-frames (r ∷ rs) (suc fuel) offset f h =
      scan_from-frame codec fuel offset r (frames codec rs) f.0
      ∙ ap (push codec r) (
          scan_from-frames rs fuel (offset + 8 + length (serialize r)) f.1
            (omega (arith, size-cons r rs)))
      ∙ ap (whole (r ∷ rs)) (omega (arith, size-cons r rs))

  -- Of the records of a file of which n bytes are left, those that are complete.
  pub record Cut (rs : List (WalRecord LogId Entry)) (n offset : ℕ) (found : Scan LogId Entry)
      : Type 0 where
    pub kept : List (WalRecord LogId Entry)
    pub lost : List (WalRecord LogId Entry)
    pub parts : rs ≡ kept ++ lost
    pub recovered : found.records ≡ kept
    pub truncated : found.good ≡ offset + size kept
    pub inside : size kept ≤ n
    pub longest :
        (r : WalRecord LogId Entry) (later : List (WalRecord LogId Entry))
        → lost ≡ r ∷ later
        → n < size kept + 8 + length (serialize r)

  Cut-cons :
      (r : WalRecord LogId Entry) (rs : List (WalRecord LogId Entry)) (m n offset : ℕ)
      (found : Scan LogId Entry)
      → n ≡ 8 + length (serialize r) + m
      → Cut rs m (offset + 8 + length (serialize r)) found
      → Cut (r ∷ rs) n offset (push codec r found)
  Cut-cons r rs m n offset found e c = record {
    kept = r ∷ c.kept;
    lost = c.lost;
    parts = ap (◌∷◌ r) c.parts;
    recovered = ap (◌∷◌ r) c.recovered;
    truncated = omega (arith, c.truncated, size-cons r c.kept);
    inside = omega (arith, c.inside, size-cons r c.kept);
    longest = λ q later h. omega (arith, c.longest q later h, size-cons r c.kept);
  }

  -- A scan that stops at once keeps nothing.
  Cut-stop :
      (rs : List (WalRecord LogId Entry)) (n offset : ℕ) (clean : Bool)
      → ((r : WalRecord LogId Entry) (later : List (WalRecord LogId Entry))
          → rs ≡ r ∷ later
          → n < 8 + length (serialize r))
      → Cut rs n offset (stop codec offset clean)
  unfolding frames
  Cut-stop rs n offset clean first = record {
    kept = [];
    lost = rs;
    parts = refl;
    recovered = refl;
    truncated = omega arith;
    inside = omega arith;
    longest = λ r later e. omega (arith, first r later e);
  }

  take_nil : (n : ℕ) → take n (frames codec []) ≡ []
  unfolding frames
  take_nil zero = refl
  take_nil (suc n) = refl

  scan_from-Cut :
      (rs : List (WalRecord LogId Entry)) (n fuel offset : ℕ)
      → Fits rs
      → n ≤ size rs
      → n < fuel
      → Cut rs n offset (scan_from codec fuel offset (take n (frames codec rs)))
  unfolding scan_from frames
  scan_from-Cut rs n zero offset f h k = absurd (omega arith)
  scan_from-Cut [] n (suc fuel) offset f h k =
      rw (take_nil n, scan_from-none codec fuel offset [] (header-short [] (omega arith)))
        (Cut-stop [] n offset true (λ r later e. absurd (cc e)))
  scan_from-Cut (r ∷ rs) n (suc fuel) offset f h k =
      elim (dec_lt n (length (frame codec (serialize r)))) [
        | yes cut ↦
            let first : n < 8 + length (serialize r) =
              omega (arith, length-frame codec (serialize r)) in
            rw
              (
                take-append_le n (frame codec (serialize r)) (frames codec rs) (omega arith),
                scan_from-torn codec fuel offset n r f.0 cut,
              )
              (Cut-stop (r ∷ rs) n offset _
                (λ q later e. subst (λ q. n < 8 + length (serialize q)) (head_eq e) first))
        | no full ↦
            let m : ℕ = n - length (frame codec (serialize r)) in
            let split : n ≡ length (frame codec (serialize r)) + m = omega arith in
            let e : n ≡ 8 + length (serialize r) + m =
              omega (arith, length-frame codec (serialize r)) in
            rw
              (
                ap (λ k. take k (frames codec (r ∷ rs))) split,
                take-append_ge (frame codec (serialize r)) (frames codec rs) m,
                scan_from-frame codec fuel offset r (take m (frames codec rs)) f.0,
              )
              (Cut-cons r rs m n offset _ e (
                scan_from-Cut rs m fuel (offset + 8 + length (serialize r)) f.1
                  (omega (arith, size-cons r rs)) (omega arith)))
      ]

  -- A file of framed records scans to those records, clean and good to its end.
  pub scan-frames :
      (rs : List (WalRecord LogId Entry))
      → Fits rs
      → scan codec (frames codec rs) ≡ record { records = rs; good = size rs; clean = true }
  unfolding scan
  scan-frames rs f =
      scan_from-frames rs (suc (size rs)) 0 f (omega arith) ∙ ap (whole rs) (omega arith)

  -- After a crash that leaves any n bytes of a file of framed records, the scan recovers a prefix of
  -- the records, the longest that the n bytes hold whole, and names its end as the good offset.
  pub scan_recovers_prefix :
      (rs : List (WalRecord LogId Entry)) (n : ℕ)
      → Fits rs
      → n ≤ size rs
      → Cut rs n 0 (scan codec (take n (frames codec rs)))
  unfolding scan
  scan_recovers_prefix rs n f h =
      scan_from-Cut rs n (suc (length (take n (frames codec rs)))) 0 f h
        (omega (arith, length-take_lt n (frames codec rs) h))
