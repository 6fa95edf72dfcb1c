-- ===== src/Notify/Matching.antt =====
-- Which zones are transferred, and from where.
use heimdallr.Common.{
  Bool, true, false, ◌≡◌, refl, ◌⊎◌, inl, inr, List, [], ◌∷◌, ◌++◌, All, Option, none, some, arith,
  Bool-cases, Option-cases, if◌then◌else◌,
}
use heimdallr.Common.Text.{Text, codes, text_eq_iff}
use heimdallr.Notify.{
  SecondaryZoneInfo, ResponseCode, Request, is_for, find_secondary, on_notify, handle_request,
  no_error, form_err, serv_fail, send_notify_ack, send_error,
}
use Prim.Derive.{subst}
use heimdallr.Transfer.{Network, axfr_from_primary, sync}

-- the zone's name is the query's, as it is or with a dot behind it
abbrev pub IsFor : Text → SecondaryZoneInfo → Type 0
IsFor zone_name s = (s.name ≡ zone_name) ⊎ (s.name ≡ zone_name ++ codes ".")

is_for_iff :
    (zone_name : Text) (s : SecondaryZoneInfo)
    → (is_for zone_name s ≡ true → IsFor zone_name s)
      × (IsFor zone_name s → is_for zone_name s ≡ true)
unfolding is_for
is_for_iff zone_name s =
    let plain = text_eq_iff s.name zone_name in
    let dotted = text_eq_iff s.name (zone_name ++ codes ".") in
    (λ h. ground (arith, plain, dotted, h), λ h. ground (arith, plain, dotted, h))

-- the first element for which a property holds
pub data IsFirst {ℓ} {A : Type ℓ} (P : A → Type 0) (x : A) : List A → Type ℓ where
  here : (xs : List A) → P x → IsFirst P x (x ∷ xs)
  there : (y : A) (xs : List A) → (P y → ⊥) → IsFirst P x xs → IsFirst P x (y ∷ xs)

find_secondary-cases :
    (zone_name : Text) (secondaries : List SecondaryZoneInfo)
    → ((s : SecondaryZoneInfo) × (find_secondary zone_name secondaries ≡ some s)
        × IsFirst (IsFor zone_name) s secondaries)
      ⊎ ((find_secondary zone_name secondaries ≡ none) × All (λ s. ¬ IsFor zone_name s) secondaries)
unfolding find_secondary
find_secondary-cases zone_name [] = inr (refl, tt)
find_secondary-cases zone_name (x ∷ secondaries) = elim (Bool-cases (is_for zone_name x)) [
  | inl fits ↦ inl (x, ground (arith, fits), here secondaries ((is_for_iff zone_name x).0 fits))
  | inr other ↦
      let not_here : ¬ IsFor zone_name x =
        λ h. ground (arith, (is_for_iff zone_name x).1 h, other) in
      elim (find_secondary-cases zone_name secondaries) [
        | inl (s, found, first) ↦
            inl (s, ground (arith, found, other), there x secondaries not_here first)
        | inr (missing, all) ↦ inr (ground (arith, missing, other), (not_here, all))
      ]
]

module _ {Name : Type 0} (to_utf8 : Name → Text) (sent : ResponseCode → Bool)
    (secondaries : List SecondaryZoneInfo) where
  -- the zone for which a transfer is spawned, if one is, for a NOTIFY with this query
  abbrev pub Spawned : Name → Option SecondaryZoneInfo → Type 0
  Spawned query (some s) = IsFirst (IsFor (to_utf8 query)) s secondaries
  Spawned query none = All (λ s. ¬ IsFor (to_utf8 query) s) secondaries

  -- the reply to a request and what is spawned for it
  pub data Handled (catalog : Request Name → ResponseCode) (request : Request Name)
      : ResponseCode × Option SecondaryZoneInfo → Type 0 where
    passed_on : request.is_notify ≡ false → Handled catalog request (catalog request, none)
    malformed :
        request.is_notify ≡ true
        → request.query ≡ none
        → Handled catalog request (if sent form_err then form_err else serv_fail, none)
    notified :
        (query : Name) (spawned : Option SecondaryZoneInfo)
        → request.is_notify ≡ true
        → request.query ≡ some query
        → Spawned query spawned
        → Handled catalog request (if sent no_error then no_error else serv_fail, spawned)

  -- A request that is no NOTIFY gets the catalog's reply, and no transfer is spawned. A NOTIFY
  -- without a query gets a format error, and none is spawned. Any other NOTIFY is acknowledged, and
  -- a transfer is spawned for the first secondary zone whose name is that of the query, as it is
  -- or with a dot behind it, and none is spawned only if there is no such zone. The reply is a
  -- server failure where it cannot be sent.
  pub handle_request-Handled :
      (catalog : Request Name → ResponseCode) (request : Request Name)
      → Handled catalog request (handle_request to_utf8 sent catalog secondaries request)
  unfolding handle_request on_notify send_error send_notify_ack
  handle_request-Handled catalog request =
      let Outcome = Handled catalog request in
      elim (Bool-cases request.is_notify) [
        | inr plain ↦ subst Outcome (ground (arith, plain)) (passed_on plain)
        | inl asked ↦ elim (Option-cases request.query) [
          | inl bad ↦ subst Outcome (ground (arith, asked, bad)) (malformed asked bad)
          | inr (query, formed) ↦ elim (find_secondary-cases (to_utf8 query) secondaries) [
            | inl (s, found, first) ↦
                subst Outcome (ground (arith, asked, formed, found))
                  (notified query (some s) asked formed first)
            | inr (missing, all) ↦
                subst Outcome (ground (arith, asked, formed, missing))
                  (notified query none asked formed all)
          ]
        ]
      ]

-- the transfer from a primary succeeds
abbrev pub Serves : {Name Authority : Type 0} → Network Name Authority → Text → Text → Type 0
Serves {Name} {Authority} net name primary =
    (authority : Authority) × (axfr_from_primary net name primary ≡ some authority)

-- A zone is transferred from the first of its primaries that the transfer succeeds from.
pub sync-IsFirst :
    {Name Authority : Type 0} (net : Network Name Authority) (name : Text) (primaries : List Text)
    (primary : Text)
    → sync net name primaries ≡ some primary
    → IsFirst (Serves net name) primary primaries
unfolding sync
sync-IsFirst net name [] primary e = ground (arith, e)
sync-IsFirst net name (p ∷ primaries) primary e =
    elim (Option-cases (axfr_from_primary net name p)) [
      | inl failed ↦
          let next : sync net name primaries ≡ some primary = ground (arith, e, failed) in
          there p primaries (λ ok. ground (arith, failed, ok.1))
            (sync-IsFirst net name primaries primary next)
      | inr (authority, ok) ↦
          let same : p ≡ primary = ground (arith, e, ok) in
          let head : IsFirst (Serves net name) p (p ∷ primaries) = here primaries (authority, ok) in
          subst (λ y. IsFirst (Serves net name) y (p ∷ primaries)) same head
    ]
