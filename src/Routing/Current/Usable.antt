-- ===== src/Routing/Current/Usable.antt =====
-- What a verified gateway of src/iaas/opnsense_workflow/gateway_checks.py rests on.
use iaas.Prelude.{◌≡◌, ◌⊎◌, Bool, true, Option, some, List, [], Text, codes}
use iaas.Value.{Value, Fields}
use iaas.Routing.{verified, route_rows, page, gateway_rows, find_gateway, field_text}
use iaas.Routing.Current.{is_good, consumer_of, consumer_status, Result, undecided, current}
use iaas.Routing.Current.Facts.{IsMonitored, IsRouted}

module _ (to_bool : Value → Option Bool) (same_network : Text → Text → Option Bool) where
  -- The routes that were given, or none.
  abbrev pub AreRead : Value → List Fields → Type 0
  AreRead live_routes routes = (routes ≡ []) ⊎ (route_rows live_routes ≡ some routes)

  -- What a verified gateway rests on.
  pub record IsUsable (desired : Fields) (live_routes gateway_status consumer expectation : Value)
      : Type 0 where
    pub name : Text
    pub rows : List Fields
    pub live : Fields
    pub named_so : field_text (codes "name") desired ≡ some name
    pub complete : gateway_rows gateway_status ≡ page rows true
    pub only : find_gateway rows name ≡ some live
    pub interface :
        (t : Text) × (field_text (codes "interface") desired ≡ some t)
        × (field_text (codes "interface") live ≡ some t)
    pub next_hop :
        (t : Text) × (field_text (codes "gateway") desired ≡ some t)
        × (field_text (codes "gateway") live ≡ some t)
    pub monitor : IsMonitored to_bool same_network desired live
    pub route :
        (routes : List Fields) × AreRead live_routes routes
        × IsRouted to_bool same_network expectation routes live
    pub observed : is_good (consumer_status (consumer_of consumer)) ≡ true

  -- A result that is not undecided, and whether it is verified.
  abbrev pub IsVerified : Result → Type 0
  IsVerified (undecided reason) = ⊥
  IsVerified (current c) = c.status ≡ verified
