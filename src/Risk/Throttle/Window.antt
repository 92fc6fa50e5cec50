-- ===== src/Risk/Throttle/Window.antt =====
-- The window that a restart builds: in order of time, with recent entries only.
use execution_engine_multi.Prelude.{
  ℕ, ◌+◌, ◌-◌, ◌*◌, ◌≤◌, ◌≡◌, ◌∙◌, refl, Bool, true, false, ◌&&◌, if◌then◌else◌, List, [], ◌∷◌, All,
  arith, leb, ltb, Bool-cases, inl, inr,
}
use native.Mathlib.Nat.{le_trans}
use execution_engine_multi.Prelude.Python.{Python}
use execution_engine_multi.Config.{EquityThrottleConfig}
use execution_engine_multi.Risk.Throttle.{
  day_ms, Window, ThrottleState, TradeRow, drop_before, insert_entry, sort_entries, row_entries,
  hydrate,
}

module _ {F : Type 0} where
  -- Every entry closed at the time or later.
  abbrev pub IsSince : ℕ → Window F → Type 0
  IsSince from w = All (λ e. from ≤ e.0) w

  -- The oldest first.
  abbrev pub IsSorted : Window F → Type 0
  IsSorted [] = Unit
  IsSorted ((at, c) ∷ w) = IsSince at w × IsSorted w

  IsSince-mono : (a b : ℕ) (w : Window F) → a ≤ b → IsSince b w → IsSince a w
  IsSince-mono a b [] h s = tt
  IsSince-mono a b (e ∷ w) h s = (le_trans h s.0, IsSince-mono a b w h s.1)

  insert_entry-IsSince :
      (from : ℕ) (e : ℕ × F) (w : Window F)
      → from ≤ e.0
      → IsSince from w
      → IsSince from (insert_entry e w)
  unfolding insert_entry
  insert_entry-IsSince from e [] h s = (h, tt)
  insert_entry-IsSince from e (x ∷ w) h s = ground (arith, insert_entry-IsSince from e w h s.1)

  insert_entry-IsSorted : (e : ℕ × F) (w : Window F) → IsSorted w → IsSorted (insert_entry e w)
  unfolding insert_entry
  insert_entry-IsSorted e [] s = (tt, tt)
  insert_entry-IsSorted e (x ∷ w) s = elim (Bool-cases (leb e.0 x.0)) [
    | inl before ↦ rw before (((ground arith), IsSince-mono e.0 x.0 w (ground arith) s.0), s)
    | inr after ↦
        rw after (insert_entry-IsSince x.0 e w (ground arith) s.0, insert_entry-IsSorted e w s.1)
  ]

  sort_entries-IsSorted : (w : Window F) → IsSorted (sort_entries w)
  unfolding sort_entries
  sort_entries-IsSorted [] = tt
  sort_entries-IsSorted (e ∷ w) = insert_entry-IsSorted e (sort_entries w) (sort_entries-IsSorted w)

  drop_before-recent :
      (cutoff : ℕ) (w : Window F)
      → IsSorted w
      → IsSince cutoff (drop_before cutoff w) × IsSorted (drop_before cutoff w)
  unfolding drop_before
  drop_before-recent cutoff [] s = (tt, tt)
  drop_before-recent cutoff (e ∷ w) s = elim (Bool-cases (ltb e.0 cutoff)) [
    | inl old ↦ rw old (drop_before-recent cutoff w s.1)
    | inr new ↦ rw new (((ground arith), IsSince-mono cutoff e.0 w (ground arith) s.0), s)
  ]

  -- How many entries pass a test.
  abbrev pub count : (ℕ × F → Bool) → Window F → ℕ
  count p [] = 0
  count p (e ∷ w) = (if p e then 1 else 0) + count p w

  insert_entry-count :
      (p : ℕ × F → Bool) (e : ℕ × F) (w : Window F) → count p (insert_entry e w) ≡ count p (e ∷ w)
  unfolding insert_entry
  insert_entry-count p e [] = refl
  insert_entry-count p e (x ∷ w) = elim (Bool-cases (leb e.0 x.0)) [
    | inl before ↦ rw before refl
    | inr after ↦ rw after (omega (arith, insert_entry-count p e w))
  ]

  sort_entries-count : (p : ℕ × F → Bool) (w : Window F) → count p (sort_entries w) ≡ count p w
  unfolding sort_entries
  sort_entries-count p [] = refl
  sort_entries-count p (e ∷ w) =
      omega (arith, insert_entry-count p e (sort_entries w), sort_entries-count p w)

  IsSince-count :
      (cutoff : ℕ) (p : ℕ × F → Bool) (w : Window F)
      → IsSince cutoff w
      → count p w ≡ count (λ e. leb cutoff e.0 && p e) w
  IsSince-count cutoff p [] s = refl
  IsSince-count cutoff p (e ∷ w) s =
      let late : leb cutoff e.0 ≡ true = ground (arith, s.0) in
      rw (late, IsSince-count cutoff p w s.1) refl

  -- From a window in order of time the loop takes the old entries and no other.
  drop_before-count :
      (cutoff : ℕ) (p : ℕ × F → Bool) (w : Window F)
      → IsSorted w
      → count p (drop_before cutoff w) ≡ count (λ e. leb cutoff e.0 && p e) w
  unfolding drop_before
  drop_before-count cutoff p [] s = refl
  drop_before-count cutoff p (e ∷ w) s = elim (Bool-cases (ltb e.0 cutoff)) [
    | inl old ↦
        let early : leb cutoff e.0 ≡ false = ground (arith, old) in
        rw (old, early) (omega (arith, drop_before-count cutoff p w s.1))
    | inr new ↦ rw new (
        IsSince-count cutoff p (e ∷ w)
          ((ground arith), IsSince-mono cutoff e.0 w (ground arith) s.0))
  ]

module _ {F : Type 0} ⦃py : Python F⦄ (config : EquityThrottleConfig F) where
  -- What a restart has to build of the contributions: those since the cutoff, each as often as it is
  -- among them, the oldest first.
  pub record IsWindowOf (cutoff : ℕ) (entries w : Window F) : Type 0 where
    pub recent : IsSince cutoff w
    pub sorted : IsSorted w
    pub complete : (p : ℕ × F → Bool) → count p w ≡ count (λ e. leb cutoff e.0 && p e) entries

  -- After a restart the window holds exactly the contributions of the rows that closed in the last
  -- `window_days` days, each as often as it is among them, in order of time, whatever rows the database
  -- returned and in whatever order.
  pub hydrate-IsWindowOf :
      (now : ℕ) (rows : List (TradeRow F)) (st : ThrottleState F)
      → IsWindowOf
          (now - config.window_days * day_ms)
          (row_entries rows)
          (hydrate config now rows st).window
  unfolding hydrate
  hydrate-IsWindowOf now rows st =
      let cutoff = now - config.window_days * day_ms in
      let entries = row_entries rows in
      let w = sort_entries entries in
      let s = sort_entries-IsSorted entries in
      let r = drop_before-recent cutoff w s in
      record {
        recent = r.0;
        sorted = r.1;
        complete = λ p.
            drop_before-count cutoff p w s
            ∙ sort_entries-count (λ e. leb cutoff e.0 && p e) entries;
      }
