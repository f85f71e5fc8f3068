-- ===== src/Metrics/Streams.antt =====
-- The calls that the proxy makes of the root context and of the contexts of its requests, in any
-- order. A request's context is found by its number.
pub mod Invariant
pub mod Interleaved
pub mod Sequential
mod Tests
use envoy_wasm_filters.Base.{
  ℕ, ◌≡◌, Bool, true, false, Option, none, some, List, [], ◌∷◌, ◌++◌, ◌==◌, if◌then◌else◌, update,
  Bytes, ◌>>=◌,
}
use envoy_wasm_filters.Common.Context.{RequestInfo, Stream, new_request_info}
use envoy_wasm_filters.Metrics.{
  Config, MetricCall, Resolver, StatsRootContext, on_configure, on_log,
}
use envoy_wasm_filters.Metrics.Sizes.{Event, handle, handle_all}

-- The contexts of the filter, and the metric calls that the proxy has received.
pub record Filter : Type 0 where
  pub root : StatsRootContext
  pub contexts : ℕ → RequestInfo
  pub calls : List MetricCall

pub data ProxyCall : Type 0 where
  configured : (conf : Option Bytes) (s : Stream) → ProxyCall
  created : (id : ℕ) → ProxyCall
  callback : (id : ℕ) (e : Event) → ProxyCall
  log : (id : ℕ) (s : Stream) → ProxyCall

-- The bytes that the root context's constructor finds in its members are a parameter.
unfoldable pub new_filter : StatsRootContext → Filter
new_filter root = record { root = root; contexts = λ id. new_request_info; calls = [] }

module _ (parsed : Bytes → Config) (resolver : Resolver) where
  -- `none` reads a null configuration.
  unfoldable pub call : ProxyCall → Filter → Option Filter
  call (configured conf s) f = do
    root ← on_configure parsed conf s f.root
    some (record f { root = root })
  call (created id) f = some (record f { contexts = update f.contexts id new_request_info })
  call (callback id e) f =
      some (record f { contexts = update f.contexts id (handle e (f.contexts id)) })
  call (log id s) f =
      let (filled, root, calls) = on_log resolver s f.root (f.contexts id) in
      some
        (record f { root = root; contexts = update f.contexts id filled; calls = f.calls ++ calls })

  -- The calls in turn, the latest first.
  unfoldable pub call_all : List ProxyCall → Filter → Option Filter
  unfolding call
  call_all [] f = some f
  call_all (c ∷ cs) f = do f ← call_all cs f; call c f

-- The callbacks of a request since its context was created, the earliest first.
unfoldable pub own : ℕ → List ProxyCall → List Event
own id [] = []
own id (configured conf s ∷ cs) = own id cs
own id (created j ∷ cs) = if id == j then [] else own id cs
own id (callback j e ∷ cs) =
    let earlier = own id cs in if id == j then earlier ++ e ∷ [] else earlier
own id (log j s ∷ cs) = own id cs

-- The configuration in force.
unfoldable pub latest : List ProxyCall → Option Bytes
latest [] = none
latest (configured none s ∷ cs) = latest cs
latest (configured (some conf) s ∷ cs) = some conf
latest (created j ∷ cs) = latest cs
latest (callback j e ∷ cs) = latest cs
latest (log j s ∷ cs) = latest cs

-- The call is not a configuration by a null pointer.
abbrev pub is_given : ProxyCall → Bool
is_given (configured none s) = false
is_given _ = true

abbrev pub is_request : ProxyCall → Bool
is_request (configured conf s) = false
is_request _ = true

-- The requests that are logged, in the order of their logs, each as its own callbacks leave it.
unfoldable pub logs : List ProxyCall → List (Stream × RequestInfo)
unfolding own
logs [] = []
logs (configured conf s ∷ cs) = logs cs
logs (created j ∷ cs) = logs cs
logs (callback j e ∷ cs) = logs cs
logs (log j s ∷ cs) = logs cs ++ (s, handle_all (own j cs) new_request_info) ∷ []
