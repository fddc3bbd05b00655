-- ===== src/Caller/Grouping.antt =====
-- What the loops over dimensions and metrics put out.
use trolley.Base.{
  String, Bool, true, false, ◌≡◌, refl, ap, sym, ◌∙◌, inl, inr, List, [], ◌∷◌, ◌++◌, map, contains,
  Json, Dict, keys, put, ok, ok-injective, arith, subst, raise_if-eq-ok, Bool-cases,
}
use mathlib.Core.List.{append_assoc, append-nil}
use mathlib.Core.Path.{ap₂}
use trolley.Base.Chain.{>>=-inv}
use trolley.Caller.{
  Outputs, transformed, add_dimension, add_dimensions, aggregate, add_metric, add_metrics, is_sum,
  is_text, at, as_text, usage_outputs,
}
use trolley.Caller.Dicts.{put_new}
use trolley.Caller.Names.{simple_name-IsSimple}
use trolley.Caller.Query.{IsSimple}
use trolley.Caller.Aggregate.{
  Dimension, Metric, count, sum, expression, metric_text, metric_alias, named_expression,
  dimension_output, metric_output, outputs_of, IsSafeDimension, IsSafeMetric, AreSafeDimensions,
  AreSafeMetrics,
}

transformed-expression :
    (transform : Json) (column alias text : String)
    → transformed transform column ≡ ok text
    → (by_date : Bool) × (text
        ≡ expression (record { column = column; by_date = by_date; alias = alias }))
unfolding transformed
transformed-expression transform column alias text h =
    elim (Bool-cases (is_text "date" transform)) [
      | inl date ↦ (true, sym (ok-injective (rw (date, transformed) at h)))
      | inr other ↦ elim (Bool-cases (is_text "identity" transform)) [
        | inl identity ↦ (false, sym (ok-injective (rw (other, identity, transformed) at h)))
        | inr neither ↦ absurd (ground (arith, other, neither, h))
      ]
    ]

AreSafeDimensions-append :
    (ds : List Dimension) (d : Dimension)
    → AreSafeDimensions ds
    → IsSafeDimension d
    → AreSafeDimensions (ds ++ d ∷ [])
AreSafeDimensions-append [] d h k = (k, tt)
AreSafeDimensions-append (e ∷ ds) d h k = (h.0, AreSafeDimensions-append ds d h.1 k)

map-snoc {ℓ κ} :
    {A : Type ℓ} {B : Type κ} (f : A → B) (xs : List A) (x : A)
    → map f (xs ++ x ∷ []) ≡ map f xs ++ f x ∷ []
map-snoc f [] x = refl
map-snoc f (y ∷ xs) x = ap (λ r. f y ∷ r) (map-snoc f xs x)

keys-named :
    (ds : List Dimension) → keys (map named_expression ds) ≡ map (λ (d : Dimension). d.alias) ds
keys-named [] = refl
keys-named (d ∷ ds) = ap (λ r. Dimension.alias d ∷ r) (keys-named ds)

-- Putting out one more dimension.
dimension_outputs :
    (ds : List Dimension) (d : Dimension) (text : String)
    → contains (keys (map named_expression ds)) d.alias ≡ false
    → text ≡ expression d
    → record {
      expressions = put d.alias text (map named_expression ds);
      projections = (map dimension_output ds ++ []) ++ as_text text d.alias ∷ [];
      aliases = (map (λ (e : Dimension). e.alias) ds ++ []) ++ d.alias ∷ [];
    }
      ≡ outputs_of (ds ++ d ∷ []) []
dimension_outputs ds d text fresh same =
    let named =
      put_new d.alias text (map named_expression ds) fresh
      ∙ ap (λ t. map named_expression ds ++ (d.alias, t) ∷ []) same
      ∙ sym (map-snoc named_expression ds d) in
    let projected =
      ap₂ (λ xs t. xs ++ as_text t d.alias ∷ []) (append-nil (map dimension_output ds)) same
      ∙ sym (map-snoc dimension_output ds d)
      ∙ sym (append-nil (map dimension_output (ds ++ d ∷ []))) in
    let aliased =
      ap (λ xs. xs ++ d.alias ∷ []) (append-nil (map (λ (e : Dimension). e.alias) ds))
      ∙ sym (map-snoc (λ (e : Dimension). e.alias) ds d)
      ∙ sym (append-nil (map (λ (e : Dimension). e.alias) (ds ++ d ∷ []))) in
    (λ i. record { expressions = named i; projections = projected i; aliases = aliased i })

-- The dimensions so far, and one more.
add_dimension-outputs :
    (ds : List Dimension) (v : Json) (after : Outputs)
    → add_dimension (outputs_of ds []) v ≡ ok after
    → (d : Dimension) × IsSafeDimension d × (after ≡ outputs_of (ds ++ d ∷ []) [])
unfolding add_dimension
add_dimension-outputs ds v after h =
    let (item, _, h1) = >>=-inv _ _ h in
    let (_, _, h2) = >>=-inv _ _ h1 in
    let (alias, simple_alias, h3) = >>=-inv _ _ h2 in
    let (column, simple_column, h4) = >>=-inv _ _ h3 in
    let (text, made, h5) = >>=-inv _ _ h4 in
    let (_, fresh, h6) = >>=-inv _ _ h5 in
    let (by_date, same) = transformed-expression (at "transform" item) column alias text made in
    let d : Dimension = record { column = column; by_date = by_date; alias = alias } in
    let old = map (λ (e : Dimension). e.alias) ds in
    let new_key : contains (keys (map named_expression ds)) alias ≡ false =
      ap (λ ks. contains ks alias) (keys-named ds ∙ sym (append-nil old))
      ∙ raise_if-eq-ok _ _ fresh in
    (
      d,
      (simple_name-IsSimple _ column simple_column, simple_name-IsSimple _ alias simple_alias),
      sym (ok-injective h6) ∙ dimension_outputs ds d text new_key same,
    )

add_dimensions-outputs :
    (ds : List Dimension) (vs : List Json) (after : Outputs)
    → AreSafeDimensions ds
    → add_dimensions (outputs_of ds []) vs ≡ ok after
    → (all : List Dimension) × AreSafeDimensions all × (after ≡ outputs_of all [])
unfolding add_dimensions
add_dimensions-outputs ds [] after safe h = (ds, safe, sym (ok-injective h))
add_dimensions-outputs ds (v ∷ vs) after safe h =
    let (next, e, h1) = >>=-inv _ _ h in
    let (d, safe_d, same) = add_dimension-outputs ds v next e in
    add_dimensions-outputs (ds ++ d ∷ []) vs after (AreSafeDimensions-append ds d safe safe_d)
      (subst (λ o. add_dimensions o vs ≡ ok after) same h1)

AreSafeMetrics-append :
    (ms : List Metric) (m : Metric)
    → AreSafeMetrics ms
    → IsSafeMetric m
    → AreSafeMetrics (ms ++ m ∷ [])
AreSafeMetrics-append [] m h k = (k, tt)
AreSafeMetrics-append (x ∷ ms) m h k = (h.0, AreSafeMetrics-append ms m h.1 k)

aggregate-metric :
    (item : Dict Json) (alias text : String)
    → IsSimple alias
    → aggregate item ≡ ok text
    → (m : Metric) × IsSafeMetric m × (metric_alias m ≡ alias) × (text ≡ metric_text m)
unfolding aggregate
aggregate-metric item alias text simple h = elim (Bool-cases (is_sum item)) [
  | inr counted ↦ (count alias, simple, refl, sym (ok-injective (rw (counted, aggregate) at h)))
  | inl summed ↦
      let (column, c, h1) = >>=-inv _ _ (rw (summed, aggregate) at h) in
      (sum column alias, (simple_name-IsSimple _ column c, simple), refl, sym (ok-injective h1))
]

-- Putting out one more metric.
metric_outputs :
    (ds : List Dimension) (ms : List Metric) (m : Metric) (alias text : String)
    → metric_alias m ≡ alias
    → text ≡ metric_text m
    → record (outputs_of ds ms) {
      projections = (outputs_of ds ms).projections ++ as_text text alias ∷ [];
      aliases = (outputs_of ds ms).aliases ++ alias ∷ [];
    }
      ≡ outputs_of ds (ms ++ m ∷ [])
metric_outputs ds ms m alias text named same =
    let ps = map dimension_output ds in
    let qs = map (λ (e : Dimension). e.alias) ds in
    let projected =
      append_assoc ps (map metric_output ms) (as_text text alias ∷ [])
      ∙ ap₂ (λ t a. ps ++ (map metric_output ms ++ as_text t a ∷ [])) same (sym named)
      ∙ ap (λ xs. ps ++ xs) (sym (map-snoc metric_output ms m)) in
    let aliased =
      append_assoc qs (map metric_alias ms) (alias ∷ [])
      ∙ ap (λ a. qs ++ (map metric_alias ms ++ a ∷ [])) (sym named)
      ∙ ap (λ xs. qs ++ xs) (sym (map-snoc metric_alias ms m)) in
    (λ i. record {
      expressions = map named_expression ds;
      projections = projected i;
      aliases = aliased i;
    })

add_metric-outputs :
    (ds : List Dimension) (ms : List Metric) (v : Json) (after : Outputs)
    → add_metric (outputs_of ds ms) v ≡ ok after
    → (m : Metric) × IsSafeMetric m × (after ≡ outputs_of ds (ms ++ m ∷ []))
unfolding add_metric
add_metric-outputs ds ms v after h =
    let (item, _, h1) = >>=-inv _ _ h in
    let (_, _, h2) = >>=-inv _ _ h1 in
    let (_, _, h3) = >>=-inv _ _ h2 in
    let (alias, simple, h4) = >>=-inv _ _ h3 in
    let (_, _, h5) = >>=-inv _ _ h4 in
    let (text, made, h6) = >>=-inv _ _ h5 in
    let (m, safe, named, same) =
      aggregate-metric item alias text (simple_name-IsSimple _ alias simple) made in
    (m, safe, sym (ok-injective h6) ∙ metric_outputs ds ms m alias text named same)

add_metrics-outputs :
    (ds : List Dimension) (ms : List Metric) (vs : List Json) (after : Outputs)
    → AreSafeMetrics ms
    → add_metrics (outputs_of ds ms) vs ≡ ok after
    → (all : List Metric) × AreSafeMetrics all × (after ≡ outputs_of ds all)
unfolding add_metrics
add_metrics-outputs ds ms [] after safe h = (ms, safe, sym (ok-injective h))
add_metrics-outputs ds ms (v ∷ vs) after safe h =
    let (next, e, h1) = >>=-inv _ _ h in
    let (m, safe_m, same) = add_metric-outputs ds ms v next e in
    add_metrics-outputs ds (ms ++ m ∷ []) vs after (AreSafeMetrics-append ms m safe safe_m)
      (subst (λ o. add_metrics o vs ≡ ok after) same h1)

-- What a definition puts out is that of safe dimensions and metrics.
pub usage_outputs-safe :
    (definition : Dict Json) (values : List Json) (outputs : Outputs)
    → usage_outputs definition values ≡ ok outputs
    → (ds : List Dimension) × (ms : List Metric) × AreSafeDimensions ds
      × AreSafeMetrics ms
      × (outputs ≡ outputs_of ds ms)
unfolding usage_outputs
usage_outputs-safe definition values outputs h =
    let (metrics, _, h1) = >>=-inv _ _ h in
    let (_, _, h2) = >>=-inv _ _ h1 in
    let (grouped, e, h3) = >>=-inv _ _ h2 in
    let (ds, safe_ds, same) = add_dimensions-outputs [] values grouped tt e in
    let (ms, safe_ms, made) =
      add_metrics-outputs ds [] metrics outputs tt
        (subst (λ o. add_metrics o metrics ≡ ok outputs) same h3) in
    (ds, ms, safe_ds, safe_ms, made)
