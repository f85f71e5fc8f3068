-- ===== src/Metrics/Streams/Invariant.antt =====
-- What the calls leave in the contexts, whatever their order.
use envoy_wasm_filters.Base.{
  ℕ, ◌≡◌, refl, ◌∙◌, inl, inr, true, false, Option, none, some, List, [], ◌∷◌, ◌++◌, ◌==◌, ==_iff,
  All, update, Bytes, Bool-cases,
}
use envoy_wasm_filters.Common.Context.{RequestInfo, Stream, new_request_info}
use envoy_wasm_filters.Metrics.{
  Config, Resolver, StatsRootContext, on_configure, on_log, full_prefix,
}
use envoy_wasm_filters.Metrics.Sizes.{
  Event, request_headers, request_body, response_body, handle, handle_all,
}
use envoy_wasm_filters.Metrics.Requests.{populate-sizes}
use envoy_wasm_filters.Metrics.Totals.{IsConfigured, on_configure-IsConfigured, on_log-IsConfigured}
use envoy_wasm_filters.Metrics.Streams.{
  Filter, ProxyCall, configured, created, callback, log, new_filter, call, call_all, own, latest,
  is_given,
}

-- The members that the callbacks before the log set are the same.
abbrev pub Agrees : RequestInfo → RequestInfo → Type 0
Agrees a b =
    (a.request_size ≡ b.request_size)
    × (a.response_size ≡ b.response_size)
    × (a.start_timestamp ≡ b.start_timestamp)

handle-Agrees : (e : Event) (a b : RequestInfo) → Agrees a b → Agrees (handle e a) (handle e b)
unfolding handle
handle-Agrees (request_headers now) a b (p, q, r) = (p, q, refl)
handle-Agrees (request_body n l) a b (p, q, r) = (rw p refl, q, r)
handle-Agrees (response_body n l) a b (p, q, r) = (p, rw q refl, r)

handle_all-snoc :
    (es : List Event) (e : Event) (info : RequestInfo)
    → handle_all (es ++ e ∷ []) info ≡ handle e (handle_all es info)
unfolding handle_all
handle_all-snoc [] e info = refl
handle_all-snoc (x ∷ es) e info = handle_all-snoc es e (handle x info)

module _ (parsed : Bytes → Config) (resolver : Resolver) where
  -- The root context is configured by the latest configuration, and a request's context holds what
  -- its own callbacks have left there.
  abbrev pub IsInForce : Option Bytes → StatsRootContext → Type 0
  IsInForce none root = Unit
  IsInForce (some conf) root = IsConfigured (full_prefix (parsed conf)) root

  pub record IsValid (cs : List ProxyCall) (f : Filter) : Type 0 where
    pub in_force : IsInForce (latest cs) f.root
    pub collected : (id : ℕ) → Agrees (f.contexts id) (handle_all (own id cs) new_request_info)

  log-IsInForce :
      (o : Option Bytes) (s : Stream) (root : StatsRootContext) (info : RequestInfo)
      → IsInForce o root
      → IsInForce o (on_log resolver s root info).1
  log-IsInForce none s root info h = tt
  log-IsInForce (some conf) s root info h =
      on_log-IsConfigured resolver (full_prefix (parsed conf)) s root info h

  log-Agrees :
      (s : Stream) (root : StatsRootContext) (info b : RequestInfo)
      → Agrees info b
      → Agrees (on_log resolver s root info).0 b
  unfolding on_log
  log-Agrees s root info b (p, q, r) =
      let (request, response, start, _) =
        populate-sizes root.is_outbound root.use_host_header_fallback s info in
      (request ∙ p, response ∙ q, start ∙ r)

  -- What the callbacks leave, at the context that a call changes and at the others.
  Collected : List ProxyCall → (ℕ → RequestInfo) → Type 0
  Collected cs contexts = (id : ℕ) → Agrees (contexts id) (handle_all (own id cs) new_request_info)

  -- A call changes one context and the callbacks of its request.
  changed-Collected :
      (c : ProxyCall) (cs : List ProxyCall) (contexts : ℕ → RequestInfo) (j : ℕ) (a : RequestInfo)
      → Collected cs contexts
      → Agrees a (handle_all (own j (c ∷ cs)) new_request_info)
      → ((id : ℕ) → (id == j) ≡ false → own id (c ∷ cs) ≡ own id cs)
      → Collected (c ∷ cs) (update contexts j a)
  unfolding Collected
  changed-Collected c cs contexts j a h now others id = elim (Bool-cases (id == j)) [
    | inl same ↦ rw (same, (==_iff id j).0 same) now
    | inr other ↦ rw (other, others id other) (h id)
  ]

  on_configure-given :
      (conf : Bytes) (s : Stream) (root : StatsRootContext)
      → (after : StatsRootContext) × (on_configure parsed (some conf) s root ≡ some after)
  unfolding on_configure
  on_configure-given conf s root = (_, refl)

  -- A call that is not a configuration by a null pointer returns, and keeps the filter valid.
  call-IsValid :
      (c : ProxyCall) (cs : List ProxyCall) (f : Filter)
      → is_given c ≡ true
      → IsValid cs f
      → (g : Filter) × (call parsed resolver c f ≡ some g) × IsValid (c ∷ cs) g
  unfolding call Collected own latest
  call-IsValid (configured none s) cs f given valid = cc
  call-IsValid (configured (some conf) s) cs f given valid =
      let (after, made) = on_configure-given conf s f.root in
      (
        record f { root = after },
        rw made refl,
        record {
          in_force = on_configure-IsConfigured parsed conf s f.root after made;
          collected = valid.collected;
        },
      )
  call-IsValid (created j) cs f given valid = (
    _,
    refl,
    record {
      in_force = valid.in_force;
      collected =
          changed-Collected (created j) cs f.contexts j new_request_info valid.collected
            (rw ((==_iff j j).1 refl) (unfold handle_all in (refl, refl, refl)))
            (λ id other. rw other refl);
    },
  )
  call-IsValid (callback j e) cs f given valid = (
    _,
    refl,
    record {
      in_force = valid.in_force;
      collected =
          changed-Collected (callback j e) cs f.contexts j (handle e (f.contexts j)) valid.collected
            (rw ((==_iff j j).1 refl, handle_all-snoc (own j cs) e new_request_info)
              (handle-Agrees e (f.contexts j) (handle_all (own j cs) new_request_info)
                (valid.collected j)))
            (λ id other. rw other refl);
    },
  )
  call-IsValid (log j s) cs f given valid = (
    _,
    refl,
    record {
      in_force = log-IsInForce (latest cs) s f.root (f.contexts j) valid.in_force;
      collected =
          changed-Collected (log j s) cs f.contexts j (on_log resolver s f.root (f.contexts j)).0
            valid.collected
            (log-Agrees s f.root (f.contexts j) (handle_all (own j cs) new_request_info)
              (valid.collected j))
            (λ id other. refl);
    },
  )

  pub call_all-IsValid :
      (root : StatsRootContext) (cs : List ProxyCall)
      → All (λ c. is_given c ≡ true) cs
      → (f : Filter) × (call_all parsed resolver cs (new_filter root) ≡ some f) × IsValid cs f
  unfolding call_all
  call_all-IsValid root [] given = (
    new_filter root,
    refl,
    unfold new_filter latest own handle_all in
        record { in_force = tt; collected = λ id. (refl, refl, refl) },
  )
  call_all-IsValid root (c ∷ cs) (now, given) =
      let (f, before, valid) = call_all-IsValid root cs given in
      let (g, after, valid_after) = call-IsValid c cs f now valid in
      (g, rw (before, after) refl, valid_after)
