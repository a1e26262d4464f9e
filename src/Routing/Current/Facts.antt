-- ===== src/Routing/Current/Facts.antt =====
-- The facts of src/iaas/opnsense_workflow/gateway_checks.py that are verified or do not apply: the
-- monitor and the route of a gateway.
use iaas.Prelude.{
  ◌≡◌, refl, ap, subst, ◌⊎◌, inl, inr, Bool, true, false, ◌||◌, Option, none, some, List, Text,
  codes, text_eq, text_eq_iff, any, Bool-cases, Option-cases,
}
use iaas.Value.{Value, Fields, null, dict, get, is_text, has_key}
use iaas.Routing.{
  Reason, field_text, is_given, same_text, compared, flag, is_disabled_by, monitored, by_disabled,
  is_route, installed, by_monitor, by_purpose, route_check,
}
use iaas.Routing.Current.{is_good}

pub compared-good :
    (expected : Text) (o : Option Text) (missing : Reason) (mismatch : Option Reason)
    → is_good (compared expected o missing mismatch).status ≡ true
    → o ≡ some expected
unfolding compared is_good
compared-good expected none missing mismatch h = cc
compared-good expected (some observed) missing mismatch h =
    elim (Bool-cases (text_eq observed expected)) [
      | inl e ↦ ap some ((text_eq_iff observed expected).0 e)
      | inr e ↦ absurd (cc (rw e at h))
    ]

module _ (to_bool : Value → Option Bool) (same_network : Text → Text → Option Bool) where
  -- The gateway is monitored as it is desired.
  pub data IsMonitored (desired live : Fields) : Type 0 where
    switched_off :
        is_disabled_by to_bool same_network
            (flag to_bool same_network (codes "monitor_disable") desired)
          ≡ true
        → flag to_bool same_network (codes "monitor_disable") live ≡ some true
        → IsMonitored desired live
    switched_on :
        is_disabled_by to_bool same_network
            (flag to_bool same_network (codes "monitor_disable") desired)
          ≡ false
        → flag to_bool same_network (codes "monitor_disable") live ≡ some false
        → has_key (codes "monitor") live ≡ true
        → (field_text (codes "monitor") desired ≡ none)
          ⊎ (same_text (field_text (codes "monitor") live) (field_text (codes "monitor") desired)
              ≡ true)
        → IsMonitored desired live

  -- No route is expected, or the route of the monitor is not needed or is there.
  pub data IsRouted (expectation : Value) (routes : List Fields) (live : Fields) : Type 0 where
    unexpected : expectation ≡ null → IsRouted expectation routes live
    not_required :
        (disable noroute : Bool)
        → flag to_bool same_network (codes "monitor_disable") live ≡ some disable
        → flag to_bool same_network (codes "monitor_noroute") live ≡ some noroute
        → disable || noroute ≡ true
        → IsRouted expectation routes live
    present :
        (row : Fields) (destination gateway netif : Text)
        → expectation ≡ dict row
        → field_text (codes "destination") row ≡ some destination
        → field_text (codes "gateway") live ≡ some gateway
        → field_text (codes "if") live ≡ some netif
        → any (is_route to_bool same_network destination gateway netif) routes ≡ true
        → IsRouted expectation routes live

  monitored-good :
      (desired live : Fields) (off : Bool)
      → is_good (monitored to_bool same_network desired live off).status ≡ true
      → (off ≡ false)
        × (has_key (codes "monitor") live ≡ true)
        × ((field_text (codes "monitor") desired ≡ none)
            ⊎ (same_text (field_text (codes "monitor") live) (field_text (codes "monitor") desired)
                ≡ true))
  unfolding monitored is_good is_given
  monitored-good desired live off h = elim (Bool-cases (has_key (codes "monitor") live)) [
    | inr k ↦ absurd (cc (rw (k, monitored) at h))
    | inl k ↦ elim (Bool-cases off) [
      | inl o ↦ absurd (cc (rw (k, o, monitored) at h))
      | inr o ↦ elim (Option-cases (field_text (codes "monitor") desired)) [
        | inl e ↦ (o, k, inl e)
        | inr (m, e) ↦ elim (Bool-cases (same_text (field_text (codes "monitor") live) (some m))) [
          | inl y ↦ (o, k, inr (rw e y))
          | inr y ↦ absurd (cc (rw (k, o, e, y, monitored) at h))
        ]
      ]
    ]
  ]

  pub by_disabled-IsMonitored :
      (desired live : Fields) (b : Bool) (o : Option Bool)
      → is_disabled_by to_bool same_network
          (flag to_bool same_network (codes "monitor_disable") desired)
        ≡ b
      → flag to_bool same_network (codes "monitor_disable") live ≡ o
      → is_good (by_disabled to_bool same_network desired live b o).status ≡ true
      → IsMonitored desired live
  unfolding by_disabled is_good
  by_disabled-IsMonitored desired live b none d e h = absurd (cc h)
  by_disabled-IsMonitored desired live true (some true) d e h = switched_off d e
  by_disabled-IsMonitored desired live true (some false) d e h = absurd (cc h)
  by_disabled-IsMonitored desired live false (some off) d e h =
      let (is_on, known, same) = monitored-good desired live off h in
      switched_on d
        (subst (λ x. flag to_bool same_network (codes "monitor_disable") live ≡ some x) is_on e)
        known same

  installed-present :
      (expectation row : Fields) (destination : Text) (routes : List Fields) (live : Fields)
      (netif gateway : Option Text)
      → field_text (codes "destination") row ≡ some destination
      → field_text (codes "if") live ≡ netif
      → field_text (codes "gateway") live ≡ gateway
      → is_good (installed to_bool same_network destination routes netif gateway).status ≡ true
      → IsRouted (dict row) routes live
  unfolding installed is_good
  installed-present expectation row destination routes live none gateway d n g h = absurd (cc h)
  installed-present expectation row destination routes live (some netif) none d n g h =
      absurd (cc h)
  installed-present expectation row destination routes live (some netif) (some gateway) d n g h =
      elim (Bool-cases (any (is_route to_bool same_network destination gateway netif) routes)) [
        | inl y ↦ present row destination gateway netif refl d g n y
        | inr y ↦ absurd (cc (rw (y, installed) at h))
      ]

  by_monitor-IsRouted :
      (row : Fields) (destination : Text) (routes : List Fields) (live : Fields)
      (disable noroute : Option Bool)
      → field_text (codes "destination") row ≡ some destination
      → flag to_bool same_network (codes "monitor_disable") live ≡ disable
      → flag to_bool same_network (codes "monitor_noroute") live ≡ noroute
      → is_good (by_monitor to_bool same_network destination routes live disable noroute).status
        ≡ true
      → IsRouted (dict row) routes live
  unfolding by_monitor is_good
  by_monitor-IsRouted row destination routes live none noroute d a b h = absurd (cc h)
  by_monitor-IsRouted row destination routes live (some disable) none d a b h = absurd (cc h)
  by_monitor-IsRouted row destination routes live (some disable) (some noroute) d a b h =
      elim (Bool-cases (disable || noroute)) [
        | inl y ↦ not_required disable noroute a b y
        | inr y ↦
            installed-present row row destination routes live (field_text (codes "if") live)
              (field_text (codes "gateway") live) d refl refl (rw (y, by_monitor) at h)
      ]

  by_purpose-IsRouted :
      (row : Fields) (purpose : Value) (o : Option Text) (routes : List Fields) (live : Fields)
      → field_text (codes "destination") row ≡ o
      → is_good (by_purpose to_bool same_network purpose o routes live).status ≡ true
      → IsRouted (dict row) routes live
  unfolding by_purpose is_good
  by_purpose-IsRouted row purpose o routes live d h =
      elim (Bool-cases (is_text (codes "pbr_consumer") purpose)) [
        | inl a ↦ absurd (cc (rw (a, by_purpose) at h))
        | inr a ↦ elim (Bool-cases (is_text (codes "monitor_host") purpose)) [
          | inr b ↦ absurd (cc (rw (a, b, by_purpose) at h))
          | inl b ↦ elim (Option-cases o) [
            | inl e ↦ absurd (cc (rw (a, b, e, by_purpose) at h))
            | inr (t, e) ↦
                by_monitor-IsRouted row t routes live
                  (flag to_bool same_network (codes "monitor_disable") live)
                  (flag to_bool same_network (codes "monitor_noroute") live) (rw e at d) refl refl
                  (rw (a, b, e, by_purpose) at h)
          ]
        ]
      ]

  pub route_check-IsRouted :
      (expectation : Value) (routes : List Fields) (live : Fields)
      → is_good (route_check to_bool same_network expectation routes live).status ≡ true
      → IsRouted expectation routes live
  unfolding route_check is_good
  route_check-IsRouted null routes live h = unexpected refl
  route_check-IsRouted (dict row) routes live h =
      by_purpose-IsRouted row (get (codes "purpose") row) (field_text (codes "destination") row)
        routes live refl h
  route_check-IsRouted _ routes live h = absurd (cc h)
