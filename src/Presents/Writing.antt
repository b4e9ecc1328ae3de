-- ===== src/Presents/Writing.antt =====
-- `uploadPresent` on the stored presents.
use on_my_way.Base.{
  String, ◌≡◌, ◌≢◌, ◌↔◌, ◌⊎◌, ap, ◌∙◌, true, false, ◌||◌, some, List, [], ◌∷◌, ◌==◌, eq_iff,
  eq_refl, arith, if◌then◌else◌, Bool-cases, inl, inr, Member,
}
use on_my_way.Database.{Database}
use on_my_way.Database.Writes.{read-update, read-update_child, exists-update, exists-update_parent}
use on_my_way.Keys.PresentKeys
use on_my_way.Model.{Present}
use on_my_way.Presents.{
  presents_ref, present_ref, present_child, present_at, upload_present, get_presents,
}
use on_my_way.Presents.Reading.{IsComplete, StoredPresent, get_presents_exact}

-- The present that `uploadPresent` stores.
abbrev pub new_present : String → String → String → String → String → String → Present
new_present key name description price image link = record {
  name = name;
  price = price;
  details = description;
  image_name = image;
  uuid = key;
  link = link;
}

module _ (f : Database) (uid : String) where
  open f use {Db, read, exists, auto_key, update_child_values, auto_key_fresh}

  module _ (key name description price image link : String) where
    abbrev pub present_data : List (String × String)
    present_data =
        (PresentKeys.present_name, name)
        ∷ (PresentKeys.description, description)
        ∷ (PresentKeys.price, price)
        ∷ (PresentKeys.image, image)
        ∷ (PresentKeys.sender_id, uid)
        ∷ (PresentKeys.uuid, key)
        ∷ (PresentKeys.link, link)
        ∷ []

    -- The tree with the present's texts at its key.
    abbrev pub with_present : Db → Db
    with_present db = update_child_values db (present_ref uid key) present_data

    text-with_present :
        (db : Db) (k child : String)
        → (key == k) ≡ false
        → read (with_present db) (present_child uid k child) ≡ read db (present_child uid k child)
    text-with_present db k child n =
        read-update f present_data db (present_ref uid key) (present_child uid k child)
          (ground (arith, eq_iff key k, eq_iff k key))

    present_at-with_present :
        (db : Db) (k : String)
        → present_at f (with_present db) uid k ≡ (
            if key == k
            then some (new_present key name description price image link)
            else present_at f db uid k)
    present_at-with_present db k = elim (Bool-cases (key == k)) [
      | inl e ↦
          rw (e, ← (eq_iff key k).0 e)
            (simp (
              read-update_child f present_data db (present_ref uid key) PresentKeys.present_name,
              read-update_child f present_data db (present_ref uid key) PresentKeys.price,
              read-update_child f present_data db (present_ref uid key) PresentKeys.description,
              read-update_child f present_data db (present_ref uid key) PresentKeys.image,
              read-update_child f present_data db (present_ref uid key) PresentKeys.uuid,
              read-update_child f present_data db (present_ref uid key) PresentKeys.link,
            ))
      | inr n ↦ rw n (
          simp (
            text-with_present db k PresentKeys.present_name n,
            text-with_present db k PresentKeys.price n,
            text-with_present db k PresentKeys.description n,
            text-with_present db k PresentKeys.image n,
            text-with_present db k PresentKeys.uuid n,
            text-with_present db k PresentKeys.link n,
          ))
    ]

    exists-with_present :
        (db : Db) (k : String)
        → exists (with_present db) (present_ref uid k) ≡ (key == k || exists db (present_ref uid k))
    exists-with_present db k = elim (Bool-cases (key == k)) [
      | inl e ↦
          rw (e, ← (eq_iff key k).0 e)
            (exists-update_parent f PresentKeys.present_name name _ db (present_ref uid key))
      | inr n ↦ rw n (
          exists-update f present_data db (present_ref uid key) (present_ref uid k)
            (ground (arith, eq_iff key k, eq_iff k key)))
    ]

    pub with_present-IsComplete :
        (db : Db) → IsComplete f uid db → IsComplete f uid (with_present db)
    with_present-IsComplete db w = record {
      reads = λ k h. elim (Bool-cases (key == k)) [
        | inl q ↦
            (new_present key name description price image link, present_at-with_present db k ∙ rw q)
        | inr q ↦
            (let (p, r) = w.reads k (ground (arith, exists-with_present db k)) in
              (p, present_at-with_present db k ∙ rw q r))
      ];
    }

    StoredPresent-with_present :
        (db : Db)
        → exists db (present_ref uid key) ≡ false
        → (p : Present)
        → StoredPresent f uid (with_present db) p
          ↔ ((p ≡ new_present key name description price image link) ⊎ StoredPresent f uid db p)
    StoredPresent-with_present db fresh p = (
      λ (k, x, r). elim (Bool-cases (key == k)) [
        | inl q ↦ inl (ground (arith, present_at-with_present db k))
        | inr q ↦ inr (
          k,
          ground (arith, exists-with_present db k),
          ground (arith, present_at-with_present db k),
        )
      ],
      λ h. elim h [
        | inl q ↦ (
          key,
          ground (arith, exists-with_present db key, eq_refl key),
          ground (arith, present_at-with_present db key, eq_refl key),
        )
        | inr (k, x, r) ↦ (
          k,
          ground (arith, exists-with_present db k),
          present_at-with_present db k
              ∙ rw (other k (λ q. cc (fresh, x, ap (λ j. exists db (present_ref uid j)) q))) r,
        )
      ],
    )
      where
        other : (k : String) → key ≢ k → (key == k) ≡ false
        other k h = ground (arith, eq_iff key k)

  upload_present-some :
      (db : Db) (name description price image link key : String)
      → auto_key db (presents_ref uid) ≡ some key
      → upload_present f db name description price image uid link
        ≡ (with_present key name description price image link db, some true)
  unfolding upload_present
  upload_present-some db name description price image link key a = rw (a, upload_present)

  -- Where every present node of the user has the texts that a present needs and the database gives
  -- a key, `uploadPresent` reports success, and `getPresents` then ends with the presents from before
  -- and the new one, and no others.
  pub get_presents-upload_present :
      (db : Db) (name description price image link key : String)
      → IsComplete f uid db
      → auto_key db (presents_ref uid) ≡ some key
      → (ps : List Present) × (new : List Present) × (get_presents f db uid ≡ some ps)
        × ((upload_present f db name description price image uid link).1 ≡ some true)
        × (get_presents f (upload_present f db name description price image uid link).0 uid
            ≡ some new)
        × ((p : Present)
            → Member p new
              ↔ ((p ≡ new_present key name description price image link) ⊎ Member p ps))
  get_presents-upload_present db name description price image link key w a =
      let (ps, g, m) = get_presents_exact f uid db w in
      let (new, g1, m1) =
        get_presents_exact f uid (with_present key name description price image link db)
          (with_present-IsComplete key name description price image link db w) in
      let add =
        StoredPresent-with_present key name description price image link db
          (auto_key_fresh db (presents_ref uid) key a) in
      let done = upload_present-some db name description price image link key a in
      (
        ps,
        new,
        g,
        ap (λ r. r.1) done,
        ap (λ r. get_presents f (r.0) uid) done ∙ g1,
        λ p. (
          λ h. elim ((add p).0 ((m1 p).0 h)) [ inl q ↦ inl q | inr t ↦ inr ((m p).1 t) ],
          λ h. (m1 p).1 ((add p).1 (elim h [ inl q ↦ inl q | inr t ↦ inr ((m p).0 t) ])),
        ),
      )
