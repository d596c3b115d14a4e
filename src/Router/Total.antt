-- ===== src/Router/Total.antt =====
-- resolveCompiledRoute of internal/router/engine.go ends where the pipelines do not call each other in a
-- circle.
use senechal_gw.Prelude.{
  ℕ, zero, suc, ◌≤◌, ◌<◌, String, ◌≢◌, inl, inr, Bool, List, [], ◌∷◌, ◌++◌, arith, All, is_empty,
  trim_space, str_eq, Bool-cases, if◌then◌else◌,
}
use senechal_gw.Prelude.Rows.{All-map}
use senechal_gw.Router.{CompiledRoute, Router, entry_routes_for_pipeline}
use senechal_gw.Router.Resolve.{
  Request, Dispatch, out_of_fuel, Routed, routed, rejected, ◌>>=◌, collect, resolve_entries,
  resolve_compiled_route,
}

-- The calls that a route needs, where `rank` bounds those of the entries of each pipeline.
abbrev pub calls : (String → ℕ) → CompiledRoute → ℕ
calls rank route =
    if str_eq route.destination.kind "call"
    then suc (rank (trim_space route.destination.call_pipeline))
    else 0

-- An entry of a pipeline needs no more calls than the rank of the pipeline: each call goes down.
abbrev pub IsRanked : (String → ℕ) → Router → Type 0
IsRanked rank r =
    (name : String) → All (λ e. calls rank e ≤ rank name) (entry_routes_for_pipeline r name)

abbrev Ends : Routed (List Dispatch) → Type 0
Ends x = x ≢ rejected out_of_fuel

bind-Ends :
    (x : Routed (List Dispatch)) (f : List Dispatch → Routed (List Dispatch))
    → Ends x
    → ((ds : List Dispatch) → Ends (f ds))
    → Ends (x >>= f)
bind-Ends (routed ds) f e h = h ds
bind-Ends (rejected x) f e h = e

collect-Ends :
    (f : CompiledRoute → Routed (List Dispatch)) (es : List CompiledRoute)
    → All (λ e. Ends (f e)) es
    → Ends (collect f es)
unfolding collect
collect-Ends f [] a = λ q. cc
collect-Ends f (e ∷ es) (a, b) = bind-Ends (f e) _ a (λ here.
    bind-Ends (collect f es) (λ rest. routed (here ++ rest)) (collect-Ends f es b) (λ rest q. cc))

entries-Ends :
    (f : CompiledRoute → Routed (List Dispatch)) (id called : String) (es : List CompiledRoute)
    → All (λ e. Ends (f e)) es
    → Ends (resolve_entries f id called es)
unfolding resolve_entries
entries-Ends f id called [] a = λ q. cc
entries-Ends f id called (e ∷ es) a = collect-Ends f (e ∷ es) a

-- Where the calls of the pipelines go down a rank, as the compiler's check for cycles makes sure,
-- resolveCompiledRoute ends within as much fuel as the route needs calls, and one more.
pub resolve_compiled_route-ends :
    (fuel : ℕ) (rank : String → ℕ) (r : Router) (req : Request) (root_hook : Bool)
    (route : CompiledRoute)
    → IsRanked rank r
    → calls rank route < fuel
    → resolve_compiled_route fuel r req root_hook route ≢ rejected out_of_fuel
unfolding resolve_compiled_route
resolve_compiled_route-ends zero rank r req root_hook route v l = absurd (omega (arith, l))
resolve_compiled_route-ends (suc fuel) rank r req root_hook route v l =
    elim (Bool-cases (str_eq route.destination.kind "uses")) [
      | inl u ↦ rw u (λ q. cc)
      | inr u ↦ elim (Bool-cases (str_eq route.destination.kind "call")) [
        | inr c ↦ elim (Bool-cases (str_eq route.destination.kind "terminal")) [
          | inl t ↦ rw (u, c, t) (λ q. cc)
          | inr t ↦ rw (u, c, t) (λ q. cc)
        ]
        | inl c ↦
            let called = trim_space route.destination.call_pipeline in
            let b : suc (rank called) < suc fuel = ground (arith, c, l) in
            let a =
              All-map (λ e. calls rank e ≤ rank called)
                (λ e. resolve_compiled_route fuel r req root_hook e ≢ rejected out_of_fuel)
                (λ e p.
                  resolve_compiled_route-ends fuel rank r req root_hook e v (omega (arith, b, p)))
                (entry_routes_for_pipeline r called) (v called) in
            elim (Bool-cases (is_empty called)) [
              | inl z ↦ rw (u, c, z) (λ q. cc)
              | inr z ↦
                  rw (u, c, z)
                    (entries-Ends _ route.id called (entry_routes_for_pipeline r called) a)
            ]
      ]
    ]
