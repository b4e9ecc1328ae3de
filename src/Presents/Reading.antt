-- ===== src/Presents/Reading.antt =====
-- `getPresents` returns the stored presents and does not stop on complete data.
use on_my_way.Base.{
  String, ◌≡◌, ◌↔◌, refl, ◌∙◌, true, some, List, [], ◌∷◌, ◌++◌, ◌==◌, eq_iff, eq_refl, arith,
  Bool-cases, inl, inr, elem, Member, ◌⊎◌,
}
use on_my_way.Database.{Database}
use on_my_way.Model.{Present}
use on_my_way.Presents.{presents_ref, present_ref, present_at, collect_presents, get_presents}

Member-append-last :
    (d e : Present) (ds : List Present) → Member d (ds ++ (e ∷ [])) ↔ (Member d ds ⊎ (d ≡ e))
Member-append-last d e [] = (
  (λ m. elim m [ inl q ↦ inr q | inr nowhere ↦ elim nowhere [ ] ]),
  (λ m. elim m [ inl nowhere ↦ elim nowhere [ ] | inr q ↦ inl q ]),
)
Member-append-last d e (x ∷ ds) =
    let (there, back) = Member-append-last d e ds in
    (
      (λ m. elim m [
        | inl q ↦ inl (inl q)
        | inr r ↦ (elim (there r) [ inl a ↦ inl (inr a) | inr b ↦ inr b ])
      ]),
      (λ m. elim m [
        | inl a ↦ (elim a [ inl q ↦ inl q | inr r ↦ inr (back (inl r)) ])
        | inr b ↦ inr (back (inr b))
      ]),
    )

module _ (f : Database) (uid : String) where
  open f use {Db, exists, children, elem-children}

  -- Every present node has the texts that a present needs.
  pub record IsComplete (db : Db) : Type 0 where
    pub reads :
        (key : String)
        → exists db (present_ref uid key) ≡ true
        → (p : Present) × (present_at f db uid key ≡ some p)

  abbrev IsRead : Db → List String → Present → Type 0
  IsRead db keys p = (key : String) × (elem key keys ≡ true) × (present_at f db uid key ≡ some p)

  abbrev pub StoredPresent : Db → Present → Type 0
  StoredPresent db p =
      (key : String) × (exists db (present_ref uid key) ≡ true) × (present_at f db uid key ≡ some p)

  IsRead-cases :
      (db : Db) (key : String) (keys : List String) (p x : Present)
      → present_at f db uid key ≡ some p
      → IsRead db (key ∷ keys) x
      → (x ≡ p) ⊎ IsRead db keys x
  IsRead-cases db key keys p x q (k, m, r) = elim (Bool-cases (key == k)) [
    | inl h ↦ inl (cc (q, r, (eq_iff key k).0 h))
    | inr h ↦ inr (k, ground arith, r)
  ]

  collect_presents_step :
      (db : Db) (key : String) (keys : List String) (found : List Present) (p : Present)
      → present_at f db uid key ≡ some p
      → collect_presents f db uid (key ∷ keys) found
        ≡ collect_presents f db uid keys (found ++ (p ∷ []))
  unfolding collect_presents
  collect_presents_step db key keys found p q = rw (q, collect_presents)

  collect_presents_exact :
      (db : Db) (keys : List String) (found : List Present)
      → ((key : String) → elem key keys ≡ true → (p : Present) × (present_at f db uid key ≡ some p))
      → (ps : List Present) × (collect_presents f db uid keys found ≡ some ps)
        × ((x : Present) → Member x ps ↔ (Member x found ⊎ IsRead db keys x))
  unfolding collect_presents
  collect_presents_exact db [] found r =
      (found, refl, λ x. (λ m. inl m, λ t. elim t [ inl m ↦ m | inr (k, q, w) ↦ absurd (cc q) ]))
  collect_presents_exact db (key ∷ keys) found r =
      let (p, q) = r key (ground (arith, eq_refl key)) in
      let (ps, c, m) =
        collect_presents_exact db keys (found ++ (p ∷ [])) (λ k h. r k (ground arith)) in
      (
        ps,
        collect_presents_step db key keys found p q ∙ c,
        λ x. (
          λ h. elim ((m x).0 h) [
            | inl a ↦ (elim ((Member-append-last x p found).0 a) [
              | inl b ↦ inl b
              | inr e ↦ inr (key, ground (arith, eq_refl key), rw e q)
            ])
            | inr (k, a, w) ↦ inr (k, ground arith, w)
          ],
          λ h. (m x).1 (elim h [
            | inl a ↦ inl ((Member-append-last x p found).1 (inl a))
            | inr a ↦ (elim (IsRead-cases db key keys p x q a) [
              | inl e ↦ inl ((Member-append-last x p found).1 (inr e))
              | inr b ↦ inr b
            ])
          ]),
        ),
      )

  -- Where every present node of the user has the texts that a present needs, `getPresents` ends with
  -- a list, and a present is in it exactly when a stored node reads as it.
  pub get_presents_exact :
      (db : Db)
      → IsComplete db
      → (ps : List Present) × (get_presents f db uid ≡ some ps)
        × ((p : Present) → Member p ps ↔ StoredPresent db p)
  unfolding get_presents
  get_presents_exact db w =
      let keys = children db (presents_ref uid) in
      let (ps, c, m) =
        collect_presents_exact db keys []
          (λ k h. w.reads k (rw (elem-children db (presents_ref uid) k) at h)) in
      (
        ps,
        c,
        λ p. (
          λ h. elim ((m p).0 h) [
            | inl nowhere ↦ elim nowhere [ ]
            | inr (k, a, r) ↦ (k, rw (elem-children db (presents_ref uid) k) at a, r)
          ],
          λ (k, x, r). (m p).1 (inr (k, elem-children db (presents_ref uid) k ∙ x, r)),
        ),
      )
