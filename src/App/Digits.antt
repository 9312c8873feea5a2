-- ===== src/App/Digits.antt =====
-- The digits of the tabs in crates/keylens/src/app.rs: `digit_for` and `view_from_digit`.
use keylens.Base.{ℕ, ◌≡◌, refl, List, [], ◌∷◌, Option, none, some, arith, ◌∙◌, sym, ap, ◌>>=◌}
use keylens.Lens.{Detection}
use keylens.App.{App, View, keys, queues, stats, slowlog, clients, cluster, pub_sub}
use keylens.App.Ops.{digit_for, view_from_digit, views, on_offer, digit_in, view_in}

-- The tab that the digit of a tab selects.
abbrev round_trip : View → List View → Option View
round_trip v tabs = digit_in v tabs >>= (λ c. view_in c tabs)

queues_hidden : digit_in queues (on_offer []) ≡ none
queues_hidden = refl

back : (d : Detection) (ds : List Detection) (v : View) → round_trip v (on_offer (d ∷ ds)) ≡ some v
back d ds keys = refl
back d ds queues = refl
back d ds stats = refl
back d ds slowlog = refl
back d ds clients = refl
back d ds cluster = refl
back d ds pub_sub = refl

agree :
    (ds : List Detection) (v : View) (c : ℕ)
    → digit_in v (on_offer ds) ≡ some c
    → round_trip v (on_offer ds) ≡ some v
agree (d ∷ ds) v c h = back d ds v
agree [] keys c h = refl
agree [] queues c h = ground (arith, queues_hidden)
agree [] stats c h = refl
agree [] slowlog c h = refl
agree [] clients c h = refl
agree [] cluster c h = refl
agree [] pub_sub c h = refl

-- The digit that a tab shows selects that tab, whether or not the queues tab is there.
pub view_from_digit-digit_for :
    {C : Type 0} (v : View) (a : App C) (c : ℕ)
    → digit_for v a ≡ some c
    → view_from_digit c a ≡ some v
unfolding digit_for view_from_digit views
view_from_digit-digit_for v a c h =
    let tabs = on_offer a.detections in
    sym (ap (λ o. o >>= (λ d. view_in d tabs)) h) ∙ agree a.detections v c h
