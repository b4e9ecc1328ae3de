-- ===== src/Screens/Shelf.antt =====
-- What Controller/PresentsVC.swift shows after a present is removed.
use on_my_way.Base.{String, ◌≡◌, ◌↔◌, refl, true, none, some, List, [], ◌∷◌, Member, inl}
use on_my_way.Database.{Database}
use on_my_way.Model.{Present}
use on_my_way.Presents.{present_ref, get_presents, remove_present}
use on_my_way.Presents.Reading.{IsComplete}
use on_my_way.Presents.Removal.{StoredElsewhere, get_presents-remove_present}
use on_my_way.Screens.{on_presents}

replaced : (p : Present) (left shown : List Present) → Member p left → on_presents left shown ≡ left
unfolding on_presents
replaced p [] shown m = elim m [ ]
replaced p (q ∷ left) shown m = refl

kept :
    (left shown : List Present) → ((p : Present) → ¬ Member p left) → on_presents left shown ≡ shown
unfolding on_presents
kept [] shown h = refl
kept (q ∷ left) shown h = absurd (h q (inl refl))

module _ (f : Database) (uid : String) where
  open f use {Db, remove_error}

  -- Where the presents of the user are complete and the server accepts the removal: `removePresent`
  -- reports success; the next answer has exactly the presents stored at other keys; if there is one,
  -- the screen shows that answer, and if there is none, it still shows what it showed before.
  pub on_presents-remove_present :
      (db : Db) (key : String) (shown : List Present)
      → IsComplete f uid db
      → remove_error db (present_ref uid key) ≡ none
      → (left : List Present) × ((remove_present f db uid key).1 ≡ true)
        × (get_presents f (remove_present f db uid key).0 uid ≡ some left)
        × ((p : Present) → Member p left ↔ StoredElsewhere f uid db key p)
        × ((p : Present) → StoredElsewhere f uid db key p → on_presents left shown ≡ left)
        × (((p : Present) → ¬ StoredElsewhere f uid db key p) → on_presents left shown ≡ shown)
  on_presents-remove_present db key shown w a =
      let (left, ok, g, m) = get_presents-remove_present f uid db key w a in
      (
        left,
        ok,
        g,
        m,
        λ p e. replaced p left shown ((m p).1 e),
        λ n. kept left shown (λ p k. n p ((m p).0 k)),
      )
