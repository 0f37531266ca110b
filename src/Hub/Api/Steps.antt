-- ===== src/Hub/Api/Steps.antt =====
-- The routes of api/hub/app.py that write, among the actions of the running hub.
use homtech_hub.Prelude.{
  ℕ, ◌≡◌, refl, sym, ap, ◌∙◌, ◌⊎◌, inl, inr, Text, true, false, Bool-cases, List, [], ◌∷◌, ◌++◌,
  arith, Json, none, is_empty, strip, text_eq, text_eq_iff,
}
use homtech_hub.Hub.Domain.{valid_request_id}
use homtech_hub.Hub.Crypto.{Crypto}
use homtech_hub.Hub.Settings.{Settings}
use homtech_hub.Hub.Repository.Sql.{Sql}
use homtech_hub.Hub.Repository.Table.{Db, uuid_text}
use homtech_hub.Hub.Repository.Create.{get}
use homtech_hub.Hub.Operator.{OperatorRequest}
use homtech_hub.Hub.World.{World, Action, request, decide, reveal, step, run}
use homtech_hub.Hub.Api.{
  Reply, replies, refuses, crashes, Headers, secret_of, authenticate, bad_client, bad_operator,
  found, normalize_request_id, required_request_id,
}
use homtech_hub.Hub.Api.Private.{authenticate-name}
use homtech_hub.Hub.Api.Purchases.{PurchaseIn, request_of, and_then, create_purchase, enqueue_for}
use homtech_hub.Hub.Api.Operators.{
  ResolutionIn, operator_resolve_purchase, resolve_for, operator_purchase_result, read_for,
}

abbrev decision_of : Text → Text → ResolutionIn → OperatorRequest
decision_of name request_id x = record {
  operator_id = name;
  request_id = request_id;
  decision = x.decision;
  reason = x.reason;
  result_value = x.result_value;
}

-- What happens to the hub: an action of its own, or a call of a route, with the headers as they came.
pub data ApiEvent : Type 0 where
  act : Action → ApiEvent
  post_purchase : ℕ → ℕ → ℕ → Headers → Text → PurchaseIn → ApiEvent
  post_decision : ℕ → ℕ → Headers → ℕ → Text → ResolutionIn → ApiEvent
  post_result : ℕ → Headers → ℕ → Text → ApiEvent

-- The caller has given the key of its name, which is not empty.
abbrev pub HasKey : List (Text × Text) → Headers → Type 0
HasKey entries h =
    (secret_of (strip h.name) entries ≡ strip h.key) × (is_empty (strip h.key) ≡ false)

-- The request id is the header's, and well formed, or a drawn one for a header that is blank.
abbrev pub IsRequestId : ℕ → Text → Text → Type 0
IsRequestId fresh header id =
    ((id ≡ header) × (valid_request_id header ≡ true))
    ⊎ ((id ≡ uuid_text fresh) × (is_empty (strip header) ≡ true))

normalize_request_id-replies :
    (fresh : ℕ) (header id : Text)
    → normalize_request_id fresh header ≡ replies id
    → IsRequestId fresh header id
unfolding normalize_request_id
normalize_request_id-replies fresh header id e = elim (Bool-cases (is_empty (strip header))) [
  | inl blank ↦ inr (ground (arith, blank, e), blank)
  | inr full ↦ elim (Bool-cases (text_eq (strip header) header)) [
    | inr padded ↦ absurd (ground (arith, full, padded, e))
    | inl same ↦
        let trimmed = (text_eq_iff (strip header) header).0 same in
        elim (Bool-cases (valid_request_id (strip header))) [
          | inr bad ↦ absurd (ground (arith, full, same, bad, e))
          | inl good ↦ inl (
            sym (ground (arith, full, same, good, e)) ∙ trimmed,
            sym (ap valid_request_id trimmed) ∙ good,
          )
        ]
  ]
]

required_request_id-replies :
    (fresh : ℕ) (header id : Text)
    → required_request_id fresh header ≡ replies id
    → (is_empty header ≡ false) × IsRequestId fresh header id
unfolding required_request_id
required_request_id-replies fresh header id e = elim (Bool-cases (is_empty header)) [
  | inl nothing ↦ absurd (ground (arith, nothing, e))
  | inr given ↦ (given, normalize_request_id-replies fresh header id (ground (arith, given, e)))
]

-- The actions of the hub that an event stands for.
abbrev pub Serves : Settings → ApiEvent → List Action → Type 0
Serves s (act a) actions = actions ≡ a ∷ []
Serves s (post_purchase now fresh id h header p) actions =
    (actions ≡ [])
    ⊎ (HasKey s.clients h
        × (request_id : Text) × IsRequestId fresh header request_id
        × (actions ≡ request now id (request_of (strip h.name) request_id p) ∷ []))
Serves s (post_decision now fresh h id header x) actions =
    (actions ≡ [])
    ⊎ (HasKey s.operators h
        × (is_empty header ≡ false)
        × (request_id : Text) × IsRequestId fresh header request_id
        × (actions ≡ decide now id (decision_of (strip h.name) request_id x) ∷ []))
Serves s (post_result fresh h id header) actions =
    (actions ≡ [])
    ⊎ (HasKey s.operators h
        × (is_empty header ≡ false)
        × (request_id : Text) × IsRequestId fresh header request_id
        × (actions ≡ reveal id (strip h.name) request_id ∷ []))

abbrev pub Served : Settings → List ApiEvent → List Action → Type 0
Served s [] actions = actions ≡ []
Served s (e ∷ events) actions =
    (first : List Action) × (later : List Action) × (actions ≡ first ++ later)
    × Serves s e first
    × Served s events later

module _ (c : Crypto) (providers : List Text) (s : Settings) (show : Json → Text) (sql : Sql) where
  api_step : World → ApiEvent → World
  unfolding step create_purchase operator_resolve_purchase operator_purchase_result
  api_step w (act a) = step c providers s w a
  api_step w (post_purchase now fresh id h header p) = record w {
    db = (create_purchase c providers s now fresh id h header p w.db).1;
  }
  api_step w (post_decision now fresh h id header x) = record w {
    db = (operator_resolve_purchase c s show sql now fresh h id header x w.db).1;
  }
  api_step w (post_result fresh h id header) = record w {
    db = (operator_purchase_result c s show sql fresh h id header w.db).1;
  }

  pub api_run : World → List ApiEvent → World
  unfolding api_step
  api_run w [] = w
  api_run w (e ∷ events) = api_run (api_step w e) events

  -- These tables are where no action leads to, or actions of some kind.
  abbrev Leads : (List Action → Type 0) → World → Db → Type 0
  Leads IsFit w db =
      (actions : List Action) × ((actions ≡ []) ⊎ IsFit actions)
      × (record w { db = db } ≡ run c providers s w actions)

  and_then-Leads :
      {A B : Type 0} (IsFit : List Action → Type 0) (r : Reply A) (w : World) (k : A → Reply B × Db)
      → ((a : A) → r ≡ replies a → Leads IsFit w (k a).1)
      → Leads IsFit w (and_then r w.db k).1
  unfolding run
  and_then-Leads IsFit (replies a) w k next = next a refl
  and_then-Leads IsFit (refuses status detail) w k next = ([], inl refl, refl)
  and_then-Leads IsFit crashes w k next = ([], inl refl, refl)

  given_key :
      (refusal : Text) (entries : List (Text × Text)) (h : Headers) (name : Text)
      → authenticate refusal entries h ≡ replies name
      → (name ≡ strip h.name) × HasKey entries h
  given_key refusal entries h name e =
      let (same, key, full) = authenticate-name refusal entries h name e in (same, (key, full))

  one_event :
      (w : World) (e : ApiEvent)
      → (actions : List Action) × Serves s e actions × (api_step w e ≡ run c providers s w actions)
  unfolding api_step run create_purchase operator_resolve_purchase operator_purchase_result
  one_event w (act a) = (a ∷ [], refl, refl)
  one_event w (post_purchase now fresh id h header p) =
      and_then-Leads _ (authenticate bad_client s.clients h) w _ (λ client known.
        and_then-Leads _ (normalize_request_id fresh header) w
          (enqueue_for c providers s now id client p w.db)
          (λ request_id e.
            let (same, has_key) = given_key bad_client s.clients h client known in
            (
              request now id (request_of client request_id p) ∷ [],
              inr (
                has_key,
                request_id,
                normalize_request_id-replies fresh header request_id e,
                ap (λ n. request now id (request_of n request_id p) ∷ []) same,
              ),
              refl,
            )))
  one_event w (post_decision now fresh h id header x) =
      and_then-Leads _ (authenticate bad_operator s.operators h) w _ (λ name known.
        and_then-Leads _ (required_request_id fresh header) w
          (resolve_for c s show sql now id name x w.db)
          (λ request_id e.
            let (same, has_key) = given_key bad_operator s.operators h name known in
            let (given, well_formed) = required_request_id-replies fresh header request_id e in
            (
              decide now id (decision_of name request_id x) ∷ [],
              inr (
                has_key,
                given,
                request_id,
                well_formed,
                ap (λ n. decide now id (decision_of n request_id x) ∷ []) same,
              ),
              refl,
            )))
  one_event w (post_result fresh h id header) =
      and_then-Leads _ (authenticate bad_operator s.operators h) w _ (λ name known.
        and_then-Leads _ (found (get id none w.db)) w _ (λ q there.
          and_then-Leads _ (required_request_id fresh header) w (read_for c s show sql id name w.db)
            (λ request_id e.
              let (same, has_key) = given_key bad_operator s.operators h name known in
              let (given, well_formed) = required_request_id-replies fresh header request_id e in
              (
                reveal id name request_id ∷ [],
                inr (
                  has_key,
                  given,
                  request_id,
                  well_formed,
                  ap (λ n. reveal id n request_id ∷ []) same,
                ),
                refl,
              ))))

  run-append :
      (w : World) (first later : List Action)
      → run c providers s w (first ++ later) ≡ run c providers s (run c providers s w first) later
  unfolding run
  run-append w [] later = refl
  run-append w (a ∷ first) later = run-append (step c providers s w a) first later

  -- Every run of the hub with calls of its writing routes among its own actions is a run of its actions
  -- alone. A call stands for at most one action: a purchase request only for a consumer that has given its
  -- key, under its name; a decision or a disclosure only for an operator that has given its key and a
  -- request id, under its name; each with the request id of its header, if that is well formed, or a
  -- drawn one for a blank header.
  pub routes_are_steps :
      (events : List ApiEvent) (w : World)
      → (actions : List Action) × Served s events actions
        × (api_run w events ≡ run c providers s w actions)
  unfolding api_run run
  routes_are_steps [] w = ([], refl, refl)
  routes_are_steps (e ∷ events) w =
      let (first, served, stepped) = one_event w e in
      let (later, rest, runs) = routes_are_steps events (api_step w e) in
      (
        first ++ later,
        (first, later, refl, served, rest),
        runs ∙ ap (λ v. run c providers s v later) stepped ∙ sym (run-append w first later),
      )
