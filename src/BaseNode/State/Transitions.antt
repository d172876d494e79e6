-- ===== src/BaseNode/State/Transitions.antt =====
-- Which state changes `BaseNode::requestNodeStateChange` grants, and what a run of them can reach.
use robot_framework_ros.Prelude.{
  ℕ, ◌≤◌, ◌≡◌, refl, ◌↔◌, ◌⊎◌, inl, inr, Bool, true, false, List, [], ◌∷◌, map, arith, ◌==◌,
  if◌then◌else◌,
}
use robot_framework_ros.BaseNode.State.{
  state_unknown, state_initializing, state_starting, state_running, state_paused, state_finished,
  request_state_change,
}

-- The four state changes that the switch of the code lets through. The diagram
-- doc/puml/NodeStateMachineDiagram.puml draws three more: between RUNNING and PAUSED, both ways, and
-- from RUNNING to FINISHED.
pub data Transition (s t : ℕ) : Type 0 where
  initialize : s ≡ state_unknown → t ≡ state_initializing → Transition s t
  begin : s ≡ state_initializing → t ≡ state_starting → Transition s t
  enter : s ≡ state_starting → t ≡ state_running → Transition s t
  restart : s ≡ state_running → t ≡ state_starting → Transition s t

granted-Transition :
    (s t : ℕ) → (request_state_change s t false).0 ≡ true → (s ≡ t) ⊎ Transition s t
unfolding request_state_change
granted-Transition s t h = grind (arith, initialize, begin, enter, restart)

Transition-granted :
    (s t : ℕ) → (s ≡ t) ⊎ Transition s t → (request_state_change s t false).0 ≡ true
unfolding request_state_change
Transition-granted s t (inl e) = ground arith
Transition-granted s t (inr (initialize p q)) = ground arith
Transition-granted s t (inr (begin p q)) = ground arith
Transition-granted s t (inr (enter p q)) = ground arith
Transition-granted s t (inr (restart p q)) = ground arith

-- Without the override a request is granted exactly for the present state and along the four
-- transitions UNKNOWN to INITIALIZING, INITIALIZING to STARTING, STARTING to RUNNING and RUNNING to
-- STARTING. The state moves to the requested one if it is granted and stays if not. The three other
-- transitions that the state diagram draws, RUNNING to PAUSED, PAUSED to RUNNING and RUNNING to
-- FINISHED, are refused.
pub request_state_change_iff :
    (s t : ℕ)
    → (((request_state_change s t false).0 ≡ true) ↔ ((s ≡ t) ⊎ Transition s t))
      × ((request_state_change s t false).1 ≡ (if (request_state_change s t false).0 then t else s))
      × (request_state_change state_running state_paused false ≡ (false, state_running))
      × (request_state_change state_paused state_running false ≡ (false, state_paused))
      × (request_state_change state_running state_finished false ≡ (false, state_running))
unfolding request_state_change
request_state_change_iff s t =
    ((granted-Transition s t, Transition-granted s t), ground arith, refl, refl, refl)

-- With the override set, no request changes the state, and none but that for the present state is
-- granted.
pub override_grants_nothing :
    (s t : ℕ)
    → ((request_state_change s t true).1 ≡ s)
      × (((request_state_change s t true).0 ≡ true) ↔ (s ≡ t))
unfolding request_state_change
override_grants_nothing s t = ground arith

-- The requests of a node's life, each with its override flag, one after the other.
unfoldable pub run_requests : ℕ → List (ℕ × Bool) → ℕ
run_requests s [] = s
run_requests s ((t, override) ∷ rest) = run_requests (request_state_change s t override).1 rest

request_bound : (s t : ℕ) (o : Bool) → s ≤ 3 → (request_state_change s t o).1 ≤ 3
unfolding request_state_change
request_bound s t o h = ground arith

run_requests_bound : (s : ℕ) (rs : List (ℕ × Bool)) → s ≤ 3 → run_requests s rs ≤ 3
unfolding run_requests
run_requests_bound s [] h = h
run_requests_bound s ((t, o) ∷ rs) h =
    run_requests_bound (request_state_change s t o).1 rs (request_bound s t o h)

-- `IsSubsequence xs ys`: the items of `xs` stand in `ys` in that order.
pub data IsSubsequence : List ℕ → List ℕ → Type 0 where
  nothing : {ys : List ℕ} → IsSubsequence [] ys
  take : {x : ℕ} {xs ys : List ℕ} → IsSubsequence xs ys → IsSubsequence (x ∷ xs) (x ∷ ys)
  skip : {y : ℕ} {xs ys : List ℕ} → IsSubsequence xs ys → IsSubsequence xs (y ∷ ys)

abbrev pub requested : List (ℕ × Bool) → List ℕ
requested = map λ (t, override). t

-- What has still to be requested before the node runs.
abbrev still_missing : ℕ → List ℕ
still_missing s =
    if s == state_unknown
    then state_initializing ∷ state_starting ∷ state_running ∷ []
    else if s == state_initializing
    then state_starting ∷ state_running ∷ []
    else if s == state_starting
    then state_running ∷ []
    else []

one_request :
    (s t : ℕ) (o : Bool)
    → let u = (request_state_change s t o).1 in
      (u ≡ s) ⊎ (still_missing s ≡ []) ⊎ (still_missing s ≡ t ∷ still_missing u)
unfolding request_state_change
one_request s t o = ground arith

run_needs :
    (s : ℕ) (rs : List (ℕ × Bool))
    → run_requests s rs ≡ state_running
    → IsSubsequence (still_missing s) (requested rs)
unfolding run_requests
run_needs s [] h = rw h nothing
run_needs s ((t, o) ∷ rs) h =
    let rest = run_needs (request_state_change s t o).1 rs h in
    elim (one_request s t o) [
      | inl same ↦ skip (rw same at rest)
      | inr (inl none_left) ↦ rw none_left nothing
      | inr (inr first) ↦ rw first (take rest)
    ]

-- Whatever is requested of a new node, with or without the override, its state is one of UNKNOWN,
-- INITIALIZING, STARTING and RUNNING: it never gets to PAUSED, RESTART or FINISHED.
pub new_node_bound : (rs : List (ℕ × Bool)) → run_requests state_unknown rs ≤ state_running
new_node_bound rs = run_requests_bound state_unknown rs (omega arith)

-- A new node is RUNNING after a run of requests, with or without the override, only if INITIALIZING,
-- STARTING and RUNNING were requested in that order, with others before, between or after them.
pub new_node_runs :
    (rs : List (ℕ × Bool))
    → run_requests state_unknown rs ≡ state_running
    → IsSubsequence (state_initializing ∷ state_starting ∷ state_running ∷ []) (requested rs)
new_node_runs rs h = run_needs state_unknown rs h
