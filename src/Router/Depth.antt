-- ===== src/Router/Depth.antt =====
-- The depths of the dispatches of internal/router/engine.go.
use senechal_gw.Prelude.{
  ℕ, zero, suc, ◌≤◌, ◌<◌, String, ◌≡◌, refl, subst, inl, inr, Bool, true, false, not, ◌&&◌, List,
  [], ◌∷◌, ◌++◌, arith, All, select, is_empty, trim_space, str_eq, ltb, leb, ◌==◌, Bool-cases,
}
use senechal_gw.Prelude.Rows.{All-map, All-append, All-select}
use senechal_gw.Router.{
  CompiledRoute, Router, entry_routes_for_pipeline, all_routes, transition_index,
  compiled_route_key, follows, route_lt, insert_route, sort_compiled_routes,
}
use senechal_gw.Router.Resolve.{
  Request, Dispatch, Routed, routed, rejected, ◌>>=◌, collect, resolve_entries, dispatch_of,
  resolve_compiled_route, matches_compiled_route_source,
}
use senechal_gw.Router.Next.{transitions}

-- What every dispatch for a request has of it.
pub record IsFor (req : Request) (d : Dispatch) : Type 0 where
  pub event : d.event ≡ req.event
  pub deeper : d.route_depth ≡ suc req.source_depth
  pub limit : 0 < req.source_max_depth → d.route_max_depth ≡ req.source_max_depth
  pub parent : d.parent_job_id ≡ req.source_job_id
  pub context : d.parent_context_id ≡ req.source_context_id
  pub instance_id : d.pipeline_instance_id ≡ req.source_pipeline_instance_id
  pub source_event : d.source_event_id ≡ req.source_event_id

bind-routed :
    {A : Type 0} (x : Routed A) (f : A → Routed (List Dispatch)) {ds : List Dispatch}
    → (x >>= f) ≡ routed ds
    → (a : A) × (x ≡ routed a) × (f a ≡ routed ds)
bind-routed (routed a) f e = (a, refl, e)
bind-routed (rejected x) f e = cc

-- A property of every answer of a loop.
collect-All :
    (P : CompiledRoute → Type 0) (Q : Dispatch → Type 0)
    (f : CompiledRoute → Routed (List Dispatch))
    → ((route : CompiledRoute) (ds : List Dispatch) → P route → f route ≡ routed ds → All Q ds)
    → (es : List CompiledRoute) → All P es
    → (ds : List Dispatch) → collect f es ≡ routed ds
    → All Q ds
unfolding collect
collect-All P Q f h [] a ds e = let s : [] ≡ ds = ground (arith, e) in subst (All Q) s tt
collect-All P Q f h (x ∷ xs) (p, a) ds e =
    let (here, y, z) = bind-routed (f x) _ e in
    let (rest, u, w) = bind-routed (collect f xs) _ z in
    let s : here ++ rest ≡ ds = ground (arith, w) in
    subst (All Q) s (All-append Q here rest (h x here p y) (collect-All P Q f h xs a rest u))

anything : (es : List CompiledRoute) → All (λ e. Unit {0}) es
anything [] = tt
anything (e ∷ es) = (tt, anything es)

entries-All :
    (Q : Dispatch → Type 0) (f : CompiledRoute → Routed (List Dispatch))
    → ((route : CompiledRoute) (ds : List Dispatch) → f route ≡ routed ds → All Q ds)
    → (id called : String) (es : List CompiledRoute) (ds : List Dispatch)
    → resolve_entries f id called es ≡ routed ds
    → All Q ds
unfolding resolve_entries
entries-All Q f h id called [] ds e = cc
entries-All Q f h id called (x ∷ xs) ds e =
    collect-All (λ x. Unit {0}) Q f (λ route ds u. h route ds) (x ∷ xs) (anything (x ∷ xs)) ds e

dispatch-IsFor :
    (route : CompiledRoute) (req : Request) (root_hook : Bool)
    → IsFor req (dispatch_of route req root_hook)
unfolding dispatch_of
dispatch-IsFor route req root_hook = record {
  event = refl;
  deeper = refl;
  limit = λ p. ground (arith, p);
  parent = refl;
  context = refl;
  instance_id = refl;
  source_event = refl;
}

-- Every dispatch that a route resolves to, through whatever calls, is for the request: one deeper than
-- its source, with the request's limit where it has one.
pub resolve_compiled_route-IsFor :
    (fuel : ℕ) (r : Router) (req : Request) (root_hook : Bool) (route : CompiledRoute)
    (ds : List Dispatch)
    → resolve_compiled_route fuel r req root_hook route ≡ routed ds
    → All (IsFor req) ds
unfolding resolve_compiled_route
resolve_compiled_route-IsFor zero r req root_hook route ds e = cc
resolve_compiled_route-IsFor (suc fuel) r req root_hook route ds e =
    elim (Bool-cases (str_eq route.destination.kind "uses")) [
      | inl u ↦
          let s : dispatch_of route req root_hook ∷ [] ≡ ds = ground (arith, u, e) in
          subst (All (IsFor req)) s (dispatch-IsFor route req root_hook, tt)
      | inr u ↦ elim (Bool-cases (str_eq route.destination.kind "call")) [
        | inr c ↦ elim (Bool-cases (str_eq route.destination.kind "terminal")) [
          | inl t ↦ let s : [] ≡ ds = ground (arith, u, c, t, e) in subst (All (IsFor req)) s tt
          | inr t ↦ absurd (ground (arith, u, c, t, e))
        ]
        | inl c ↦
            let called = trim_space route.destination.call_pipeline in
            elim (Bool-cases (is_empty called)) [
              | inl z ↦ absurd (ground (arith, u, c, z, e))
              | inr z ↦
                  entries-All (IsFor req) (resolve_compiled_route fuel r req root_hook)
                    (λ x xs. resolve_compiled_route-IsFor fuel r req root_hook x xs) route.id called
                    (entry_routes_for_pipeline r called) ds (ground (arith, u, c, z, e))
            ]
      ]
    ]

insert-All :
    (P : CompiledRoute → Type 0) (x : CompiledRoute) (xs : List CompiledRoute)
    → P x
    → All P xs
    → All P (insert_route x xs)
unfolding insert_route
insert-All P x [] p a = (p, tt)
insert-All P x (y ∷ ys) p (q, a) = elim (Bool-cases (route_lt y x)) [
  | inl t ↦ rw t (q, insert-All P x ys p a)
  | inr t ↦ rw t (p, (q, a))
]

sort-All :
    (P : CompiledRoute → Type 0) (xs : List CompiledRoute)
    → All P xs
    → All P (sort_compiled_routes xs)
unfolding sort_compiled_routes
sort-All P [] a = tt
sort-All P (x ∷ xs) (p, a) = insert-All P x (sort_compiled_routes xs) p (sort-All P xs a)

index-follows :
    (r : Router) (pipeline step_id : String)
    → All (λ route. follows pipeline step_id route ≡ true) (transition_index r pipeline step_id)
unfolding transition_index
index-follows r pipeline step_id = sort-All _ _ (
    All-map _ _ (λ x p. p.1) _
      (All-select (λ x. Unit {0}) (follows pipeline step_id) (all_routes r.pipelines)
        (anything (all_routes r.pipelines))))

-- A dispatch within the limit of the request.
pub record IsWithin (req : Request) (d : Dispatch) : Type 0 where
  pub for : IsFor req d
  pub within : d.route_depth ≤ req.source_max_depth

and-parts : (a b : Bool) → (a && b) ≡ true → (a ≡ true) × (b ≡ true)
and-parts true b h = (refl, h)
and-parts false b h = cc

guard-depth : (m d : ℕ) → 0 < m → not (ltb 0 m && leb m d) ≡ true → suc d ≤ m
guard-depth m d l h = ground (arith, l, h)

match-depth :
    (req : Request) (route : CompiledRoute)
    → 0 < req.source_max_depth
    → follows req.source_pipeline req.source_step_id route ≡ true
    → matches_compiled_route_source route.source req true ≡ true
    → suc req.source_depth ≤ req.source_max_depth
unfolding matches_compiled_route_source
match-depth req route l f m =
    let (f1, f0) =
      and-parts _
        (str_eq (compiled_route_key route.source.pipeline route.source.step_id)
          (compiled_route_key req.source_pipeline req.source_step_id))
        f in
    let (f2, q) = and-parts _ (not (is_empty route.source.step_id)) f1 in
    let (f3, p) = and-parts _ (not (is_empty route.source.pipeline)) f2 in
    let (t, k) = and-parts (is_empty route.source.trigger) (is_empty route.source.hook_signal) f3 in
    let z : (0 == req.source_max_depth) ≡ false = ground (arith, l) in
    let m' = rw (t, k, p, q, z) at m in
    let (m1, m4) =
      and-parts _ (not (ltb 0 req.source_max_depth && leb req.source_max_depth req.source_depth))
        m' in
    guard-depth req.source_max_depth req.source_depth l m4

-- With a positive limit, every dispatch of an intra-pipeline transition is for the request, and its depth
-- is within the limit: the transitions of an instance end after that many steps.
pub transitions-IsWithin :
    (fuel : ℕ) (r : Router) (req : Request) (ds : List Dispatch)
    → 0 < req.source_max_depth
    → transitions fuel r req ≡ routed ds
    → All (IsWithin req) ds
unfolding transitions
transitions-IsWithin fuel r req ds l e =
    elim (Bool-cases (not (is_empty req.source_pipeline) && not (is_empty req.source_step_id))) [
      | inr t ↦ let s : [] ≡ ds = ground (arith, t, e) in subst (All (IsWithin req)) s tt
      | inl t ↦
          collect-All
            (λ route.
              (follows req.source_pipeline req.source_step_id route ≡ true)
              × (matches_compiled_route_source route.source req true ≡ true))
            (IsWithin req) (resolve_compiled_route fuel r req false)
            (λ route xs p u.
              All-map (IsFor req) (IsWithin req)
                (λ d i. record { for = i; within = rw i.deeper (match-depth req route l p.0 p.1) })
                xs (resolve_compiled_route-IsFor fuel r req false route xs u))
            (select (λ route. matches_compiled_route_source route.source req true)
              (transition_index r req.source_pipeline req.source_step_id))
            (All-select _ _ _ (index-follows r req.source_pipeline req.source_step_id)) ds
            (ground (arith, t, e))
    ]
