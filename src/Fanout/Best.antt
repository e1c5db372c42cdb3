-- ===== src/Fanout/Best.antt =====
-- The map of `dedup_by_aircraft`: after each hit, the freshest of those seen.
use aether_engine.Prelude.{
  ◌≡◌, ◌≢◌, ◌⊎◌, inl, inr, refl, sym, ap, ◌∙◌, subst, String, true, false, List, [], ◌∷◌, none,
  some, arith, nat_eq, string_eq, ◌==◌, In, is_some, Option-cases, Bool-cases, beq→eq,
}
use text.Mathlib.TextEquality.{eq_iff}
use aether_engine.Prelude.HashMap
use aether_engine.Prelude.HashMap.{
  HashMap, get, contains_key, Distinct, insert-Distinct, get-insert_self, get-insert_ne,
}
use aether_engine.Fanout.{Scores, SearchHit, icao24_of, supersedes, keep, keep_all}

pub some_eq : {A : Type 0} {a b : A} → some a ≡ some b → a ≡ b
some_eq e = cc e

pub apart_of : (j k : String) → (j == k) ≡ false → j ≢ k
apart_of j k h e = absurd (ground (arith, eq_iff j k))

pub false_is_not-true : ¬ (false ≡ true)
false_is_not-true e = cc e

pub missing : {A : Type 0} {a : A} → ¬ (none ≡ some a)
missing e = cc e

module _ (scores : Scores) where
  open scores use {Score, exceeds}

  supersedes_irrefl : (a : SearchHit Score) → supersedes scores a a ≡ false
  unfolding supersedes
  supersedes_irrefl a = ground (arith, scores.exceeds_irrefl a.score)

  -- What the old hit holds off, a hit that supersedes it holds off too.
  supersedes_later :
      (g h o : SearchHit Score)
      → supersedes scores h o ≡ true
      → supersedes scores g o ≡ false
      → supersedes scores g h ≡ false
  unfolding supersedes
  supersedes_later g h o new old = ground (arith, scores.exceeds_trans g.score h.score o.score)

  -- The map holds, of the hits seen, one to a key, and the freshest.
  pub record Best (Seen : SearchHit Score → Type 0) (best : HashMap String (SearchHit Score))
      : Type 0 where
    pub distinct : Distinct best
    pub sound :
        (k : String) (h : SearchHit Score)
        → get best k ≡ some h
        → (icao24_of h ≡ k)
          × Seen h
          × ((g : SearchHit Score) → Seen g → icao24_of g ≡ k → supersedes scores g h ≡ false)
    pub complete : (g : SearchHit Score) → Seen g → contains_key best (icao24_of g) ≡ true

  insert-Best :
      (Seen : SearchHit Score → Type 0) (best : HashMap String (SearchHit Score))
      (h : SearchHit Score)
      → Best Seen best
      → ((g : SearchHit Score) → Seen g → icao24_of g ≡ icao24_of h → supersedes scores g h ≡ false)
      → Best (λ g. (g ≡ h) ⊎ Seen g) (HashMap.insert best (icao24_of h) h)
  insert-Best Seen best h b first = record {
    distinct = insert-Distinct best (icao24_of h) h b.distinct;
    sound = λ k found e. elim (Bool-cases (icao24_of h == k)) [
      | inl same ↦
          let key : icao24_of h ≡ k = beq→eq (icao24_of h) k same in
          subst
            (λ x.
              (icao24_of x ≡ k)
              × ((x ≡ h) ⊎ Seen x)
              × ((g : SearchHit Score)
                  → (g ≡ h) ⊎ Seen g
                  → icao24_of g ≡ k
                  → supersedes scores g x ≡ false))
            (some_eq (
              sym (get-insert_self best (icao24_of h) h)
              ∙ ap (get (HashMap.insert best (icao24_of h) h)) key
              ∙ e))
            (
              key,
              inl refl,
              λ g s m. elim s [
                | inl new ↦ rw new (supersedes_irrefl h)
                | inr old ↦ first g old (m ∙ sym key)
              ],
            )
      | inr other ↦
          let apart : icao24_of h ≢ k = λ m. apart_of (icao24_of h) k other m in
          let (key, seen, freshest) =
            b.sound k found (sym (get-insert_ne best (icao24_of h) k h apart) ∙ e) in
          (
            key,
            inr seen,
            λ g s m. elim s [
              | inl new ↦ absurd (apart (ap icao24_of (sym new) ∙ m))
              | inr old ↦ freshest g old m
            ],
          )
    ];
    complete = λ g s. elim (Bool-cases (icao24_of h == icao24_of g)) [
      | inl same ↦
          rw (← beq→eq (icao24_of h) (icao24_of g) same, get-insert_self best (icao24_of h) h) refl
      | inr other ↦ elim s [
        | inl new ↦ absurd (apart_of (icao24_of h) (icao24_of g) other (ap icao24_of (sym new)))
        | inr old ↦
            rw
              (get-insert_ne best (icao24_of h) (icao24_of g) h
                (apart_of (icao24_of h) (icao24_of g) other))
              (b.complete g old)
      ]
    ];
  }

  stay-Best :
      (Seen : SearchHit Score → Type 0) (best : HashMap String (SearchHit Score))
      (h existing : SearchHit Score)
      → Best Seen best
      → get best (icao24_of h) ≡ some existing
      → supersedes scores h existing ≡ false
      → Best (λ g. (g ≡ h) ⊎ Seen g) best
  stay-Best Seen best h existing b e weaker = record {
    distinct = b.distinct;
    sound = λ k found f.
        let (key, seen, freshest) = b.sound k found f in
        (
          key,
          inr seen,
          λ g s m. elim s [
            | inl new ↦
                let same : some found ≡ some existing =
                  sym f ∙ ap (get best) (sym m ∙ ap icao24_of new) ∙ e in
                subst (λ x. supersedes scores g x ≡ false) (sym (some_eq same))
                  (subst (λ x. supersedes scores x existing ≡ false) (sym new) weaker)
            | inr old ↦ freshest g old m
          ],
        );
    complete = λ g s. elim s [ inl new ↦ rw (new, e) refl | inr old ↦ b.complete g old ];
  }

  keep-Best :
      (Seen : SearchHit Score → Type 0) (best : HashMap String (SearchHit Score))
      (h : SearchHit Score)
      → Best Seen best
      → Best (λ g. (g ≡ h) ⊎ Seen g) (keep scores best h)
  unfolding keep
  keep-Best Seen best h b = elim (Option-cases (get best (icao24_of h))) [
    | inl e ↦
        rw (e, keep)
          (insert-Best Seen best h b (λ g s m.
            absurd (false_is_not-true (sym (ap is_some e) ∙ rw (sym m) (b.complete g s)))))
    | inr (existing, e) ↦ elim (Bool-cases (supersedes scores h existing)) [
      | inl newer ↦
          rw (e, newer, keep)
            (insert-Best Seen best h b (λ g s m.
              supersedes_later g h existing newer ((b.sound (icao24_of h) existing e).2 g s m)))
      | inr weaker ↦ rw (e, weaker, keep) (stay-Best Seen best h existing b e weaker)
    ]
  ]

  Best-cong :
      (P Q : SearchHit Score → Type 0) (best : HashMap String (SearchHit Score))
      → ((g : SearchHit Score) → P g → Q g)
      → ((g : SearchHit Score) → Q g → P g)
      → Best P best
      → Best Q best
  Best-cong P Q best f g b = record {
    distinct = b.distinct;
    sound = λ k h e.
        let (key, seen, freshest) = b.sound k h e in (key, f h seen, λ x s m. freshest x (g x s) m);
    complete = λ x s. b.complete x (g x s);
  }

  pub keep_all-Best :
      (Seen : SearchHit Score → Type 0) (best : HashMap String (SearchHit Score))
      (hs : List (SearchHit Score))
      → Best Seen best
      → Best (λ g. Seen g ⊎ In g hs) (keep_all scores best hs)
  unfolding keep_all
  keep_all-Best Seen best [] b =
      Best-cong Seen (λ g. Seen g ⊎ In g []) best (λ g s. inl s)
        (λ g s. elim s [ inl x ↦ x | inr x ↦ absurd x ]) b
  keep_all-Best Seen best (h ∷ hs) b =
      Best-cong (λ g. ((g ≡ h) ⊎ Seen g) ⊎ In g hs) (λ g. Seen g ⊎ In g (h ∷ hs))
        (keep_all scores (keep scores best h) hs)
        (λ g s. elim s [
          | inl x ↦ elim x [ inl new ↦ inr (inl new) | inr old ↦ inl old ]
          | inr later ↦ inr (inr later)
        ])
        (λ g s. elim s [
          | inl old ↦ inl (inr old)
          | inr x ↦ elim x [ inl new ↦ inl (inl new) | inr later ↦ inr later ]
        ])
        (keep_all-Best (λ g. (g ≡ h) ⊎ Seen g) (keep scores best h) hs (keep-Best Seen best h b))
