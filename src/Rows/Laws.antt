-- ===== src/Rows/Laws.antt =====
-- What updates, deletions and insertions do to the first row that a test picks.
use depsera.Prelude.{
  String, ◌≡◌, refl, ap, ◌∙◌, inl, inr, Bool, true, false, ◌&&◌, ◌||◌, none, some, List, [], ◌∷◌,
  ◌++◌, keep, find, ◌==◌, arith, eq_iff, eq_refl, Bool-cases, if◌then◌else◌,
}
use depsera.Rows.{has_key, UniqueKeys, update, remove}

module _ {ℓ} {A : Type ℓ} where
  pub find-append :
      (p : A → Bool) (rows : List A) (new : A)
      → find p (rows ++ new ∷ [])
        ≡ elim (find p rows) [ none ↦ (if p new then some new else none) | some r ↦ some r ]
  find-append p [] new = ground arith
  find-append p (r ∷ rows) new = ground (arith, find-append p rows new)

  pub keep-append_out :
      (q : A → Bool) (rows : List A) (new : A)
      → q new ≡ false
      → keep q (rows ++ new ∷ []) ≡ keep q rows
  keep-append_out q [] new out = ground (arith, out)
  keep-append_out q (r ∷ rows) new out = rw (keep-append_out q rows new out) refl

  pub find-keep :
      (p q : A → Bool) (rows : List A) → find p (keep q rows) ≡ find (λ r. p r && q r) rows
  find-keep p q [] = refl
  find-keep p q (r ∷ rows) = ground (arith, find-keep p q rows)

  module _ (key : A → String) where
    pub has_key-append :
        (k : String) (rows : List A) (new : A)
        → has_key key k (rows ++ new ∷ []) ≡ (has_key key k rows || (key new == k))
    has_key-append k [] new = ground arith
    has_key-append k (r ∷ rows) new = ground (arith, has_key-append k rows new)

    pub has_key-update :
        (k id : String) (f : A → A)
        → ((r : A) → key (f r) ≡ key r)
        → (by : A → String) (rows : List A)
        → has_key key k (update by id f rows) ≡ has_key key k rows
    unfolding update
    has_key-update k id f same by [] = refl
    has_key-update k id f same by (r ∷ rows) =
        ground (arith, same r, has_key-update k id f same by rows)

    pub has_key-keep :
        (k : String) (q : A → Bool) (rows : List A)
        → has_key key k rows ≡ false
        → has_key key k (keep q rows) ≡ false
    has_key-keep k q [] h = refl
    has_key-keep k q (r ∷ rows) h = ground (arith, has_key-keep k q rows (ground (arith, h)))

    pub UniqueKeys-append :
        (rows : List A) (new : A)
        → UniqueKeys key rows
        → has_key key (key new) rows ≡ false
        → UniqueKeys key (rows ++ new ∷ [])
    UniqueKeys-append [] new u h = (refl, tt)
    UniqueKeys-append (r ∷ rows) new (fresh, u) h = (
      ground (
        arith,
        has_key-append (key r) rows new,
        eq_iff (key r) (key new),
        eq_iff (key new) (key r),
      ),
      UniqueKeys-append rows new u (ground (arith, h)),
    )

    pub UniqueKeys-update :
        (id : String) (f : A → A)
        → ((r : A) → key (f r) ≡ key r)
        → (by : A → String) (rows : List A) → UniqueKeys key rows
        → UniqueKeys key (update by id f rows)
    unfolding update
    UniqueKeys-update id f same by [] u = tt
    UniqueKeys-update id f same by (r ∷ rows) (fresh, u) =
        let rest = UniqueKeys-update id f same by rows u in
        elim (Bool-cases (by r == id)) [
          | inl yes_ ↦
              rw yes_ (rw (same r) (has_key-update (key r) id f same by rows ∙ fresh), rest)
          | inr no_ ↦ rw no_ (has_key-update (key r) id f same by rows ∙ fresh, rest)
        ]

    pub UniqueKeys-keep :
        (q : A → Bool) (rows : List A) → UniqueKeys key rows → UniqueKeys key (keep q rows)
    UniqueKeys-keep q [] u = tt
    UniqueKeys-keep q (r ∷ rows) (fresh, u) = elim (Bool-cases (q r)) [
      | inl kept ↦ rw kept (has_key-keep (key r) q rows fresh, UniqueKeys-keep q rows u)
      | inr out ↦ rw out (UniqueKeys-keep q rows u)
    ]

    pub has_key-of_find :
        (p : A → Bool) (rows : List A) (e : A)
        → find p rows ≡ some e
        → has_key key (key e) rows ≡ true
    has_key-of_find p [] e h = ground (arith, h)
    has_key-of_find p (r ∷ rows) e h = elim (Bool-cases (p r)) [
      | inl yes_ ↦ ground (arith, h, yes_, eq_refl (key e))
      | inr no_ ↦ ground (arith, no_, has_key-of_find p rows e (ground (arith, h, no_)))
    ]

    pub update_absent :
        (k : String) (f : A → A) (rows : List A)
        → has_key key k rows ≡ false
        → update key k f rows ≡ rows
    unfolding update
    update_absent k f [] h = refl
    update_absent k f (r ∷ rows) h = ground (arith, update_absent k f rows (ground (arith, h)))

    pub remove_absent :
        (k : String) (rows : List A) → has_key key k rows ≡ false → remove key k rows ≡ rows
    remove_absent k [] h = refl
    remove_absent k (r ∷ rows) h = ground (arith, remove_absent k rows (ground (arith, h)))

    pub update_first :
        (f : A → A) (r : A) (rows : List A)
        → has_key key (key r) rows ≡ false
        → update key (key r) f (r ∷ rows) ≡ f r ∷ rows
    unfolding update
    update_first f r rows h = rw (eq_refl (key r)) (ap (◌∷◌ (f r)) (update_absent (key r) f rows h))

    pub remove_first :
        (r : A) (rows : List A)
        → has_key key (key r) rows ≡ false
        → remove key (key r) (r ∷ rows) ≡ rows
    remove_first r rows h = rw (eq_refl (key r)) (remove_absent (key r) rows h)

    pub update_later :
        (k : String) (f : A → A) (r : A) (rows : List A)
        → (key r == k) ≡ false
        → update key k f (r ∷ rows) ≡ r ∷ update key k f rows
    unfolding update
    update_later k f r rows h = rw h refl
