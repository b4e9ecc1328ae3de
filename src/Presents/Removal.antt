-- ===== src/Presents/Removal.antt =====
-- `removePresent` on the stored presents.
use on_my_way.Base.{
  String, ◌≡◌, ◌≢◌, ◌↔◌, ◌∙◌, true, false, none, some, List, ◌==◌, eq_iff, eq_refl, arith,
  if◌then◌else◌, Bool-cases, inl, inr, Member,
}
use on_my_way.Database.{Database}
use on_my_way.Keys.PresentKeys
use on_my_way.Model.{Present}
use on_my_way.Presents.{present_ref, present_child, present_at, remove_present, get_presents}
use on_my_way.Presents.Reading.{IsComplete, get_presents_exact}

module _ (f : Database) (uid : String) where
  open f use {Db, read, exists, remove_value, remove_error, read-remove_value}
  open f use {exists-remove_value, exists-remove_value_self}

  -- A present that is stored at another key than `key`.
  abbrev pub StoredElsewhere : Db → String → Present → Type 0
  StoredElsewhere db key p =
      (k : String) × (k ≢ key)
      × (exists db (present_ref uid k) ≡ true)
      × (present_at f db uid k ≡ some p)

  module _ (db : Db) (key : String) (a : remove_error db (present_ref uid key) ≡ none) where
    text-remove_value :
        (k child : String)
        → read (remove_value db (present_ref uid key)) (present_child uid k child)
          ≡ (if key == k then none else read db (present_child uid k child))
    text-remove_value k child = ground (
      arith,
      eq_refl uid,
      read-remove_value db (present_ref uid key) (present_child uid k child) a,
    )

    present_at-remove_value :
        (k : String)
        → (key == k) ≡ false
        → present_at f (remove_value db (present_ref uid key)) uid k ≡ present_at f db uid k
    present_at-remove_value k n = simp (
      text-remove_value k PresentKeys.present_name,
      text-remove_value k PresentKeys.price,
      text-remove_value k PresentKeys.description,
      text-remove_value k PresentKeys.image,
      text-remove_value k PresentKeys.uuid,
      text-remove_value k PresentKeys.link,
      n,
    )

    exists-remove_present :
        (k : String)
        → exists (remove_value db (present_ref uid key)) (present_ref uid k)
          ≡ (if key == k then false else exists db (present_ref uid k))
    exists-remove_present k = elim (Bool-cases (key == k)) [
      | inl q ↦ rw (q, ← (eq_iff key k).0 q) (exists-remove_value_self db (present_ref uid key) a)
      | inr q ↦ rw q (
          ground (
            arith,
            eq_iff key k,
            eq_iff k key,
            exists-remove_value db (present_ref uid key) (present_ref uid k) a,
          ))
    ]

    -- A node that is there after the removal has another key and was there before.
    left_behind :
        (k : String)
        → exists (remove_value db (present_ref uid key)) (present_ref uid k) ≡ true
        → ((key == k) ≡ false) × (exists db (present_ref uid k) ≡ true)
    left_behind k h = elim (Bool-cases (key == k)) [
      | inl q ↦ absurd (ground (arith, exists-remove_present k))
      | inr q ↦ (q, ground (arith, exists-remove_present k))
    ]

    removed-IsComplete :
        IsComplete f uid db → IsComplete f uid (remove_value db (present_ref uid key))
    removed-IsComplete w = record {
      reads = λ k h.
          let (n, x) = left_behind k h in
          let (p, r) = w.reads k x in (p, present_at-remove_value k n ∙ r);
    }

  -- Where every present node of the user has the texts that a present needs and the server accepts
  -- the removal, `removePresent` reports success, and `getPresents` then ends with a list, in which
  -- a present is exactly when it was stored at another key.
  pub get_presents-remove_present :
      (db : Db) (key : String)
      → IsComplete f uid db
      → remove_error db (present_ref uid key) ≡ none
      → (left : List Present) × ((remove_present f db uid key).1 ≡ true)
        × (get_presents f (remove_present f db uid key).0 uid ≡ some left)
        × ((p : Present) → Member p left ↔ StoredElsewhere db key p)
  unfolding remove_present
  get_presents-remove_present db key w a =
      let (left, g, m) =
        get_presents_exact f uid (remove_value db (present_ref uid key))
          (removed-IsComplete db key a w) in
      (
        left,
        rw a,
        g,
        λ p. (
          λ h.
              let (k, x, r) = (m p).0 h in
              let (n, y) = left_behind db key a k x in
              (k, apart_of k n, y, (ground (arith, present_at-remove_value db key a k n))),
          λ (k, n, x, r).
              let ne = test_of k n in
              (m p).1 (
                k,
                exists-remove_present db key a k ∙ rw ne x,
                present_at-remove_value db key a k ne ∙ r,
              ),
        ),
      )
    where
      apart_of : (k : String) → (key == k) ≡ false → k ≢ key
      apart_of k n e = ground (arith, eq_iff key k)

      test_of : (k : String) → k ≢ key → (key == k) ≡ false
      test_of k n = ground (arith, eq_iff key k)
