-- ===== src/Client/Interleaving/Begin.antt =====
-- The interleavings of the methods of a client from its construction on (centrifuge/client.py).
use centrifuge_python.Client.Registry.{is_some}
use centrifuge_python.Proxy.{
  load_parse_proxy, ModuleName, Import, validate_proxy, Verdict, must_be_url, not_valid,
  requires_socks, accepted,
}
use centrifuge_python.Client.Construction.{
  is_wss, Construction, ClientOptions, new_client, after_verdict, constructed, proxy_refused,
  initial_client, ssl_refused,
}
use centrifuge_python.Client.Publications.{ApplyDelta}
use centrifuge_python.Client.Commands.{next_command_id}
use centrifuge_python.Client.Safety.Sound.{Sound}
use centrifuge_python.Client.Interleaving.{Reaches, Suspended}
use centrifuge_python.Client.World.{World, get}
use centrifuge_python.Client.Interleaving.Invariant.{Reaches-Sound, next_command_id-fresh}
use centrifuge_python.Base.{
  Bool, true, false, not, ◌&&◌, none, List, ◌≡◌, refl, sym, ap, ◌∙◌, arith, if◌then◌else◌,
}
use mathlib.Core.Path.{subst}

abbrev client_of : World → Construction → World
client_of w (constructed w') = w'
client_of w ssl_refused = w
client_of w (proxy_refused verdict) = w

client_of-after_verdict :
    (verdict : Verdict) (w : World) → client_of w (after_verdict verdict w) ≡ w
client_of-after_verdict accepted w = refl
client_of-after_verdict must_be_url w = refl
client_of-after_verdict (not_valid proxy message) w = refl
client_of-after_verdict (requires_socks scheme) w = refl

client_of-if :
    (refuses : Bool) (verdict : Verdict) (w : World)
    → client_of w (if refuses then ssl_refused else after_verdict verdict w) ≡ w
client_of-if true verdict w = refl
client_of-if false verdict w = client_of-after_verdict verdict w

-- A client that the constructor made is in the initial state.
new_client-constructed :
    (import_module : ModuleName → Import) (socks_installed : Bool) (options : ClientOptions)
    (w₀ : World)
    → new_client import_module socks_installed options ≡ constructed w₀
    → initial_client options ≡ w₀
unfolding new_client
new_client-constructed import_module socks_installed options w₀ e =
    sym (
      client_of-if (is_some options.ssl_context && not (is_wss options.address))
        (validate_proxy (load_parse_proxy import_module) socks_installed options.proxy)
        (initial_client options))
    ∙ ap (client_of (initial_client options)) e

initial_client-Sound : (options : ClientOptions) → Sound (initial_client options)
unfolding initial_client get
initial_client-Sound options = (
  λ _. (refl, refl, refl, refl, refl),
  ((λ id i e. ground (arith, e)), λ k cb e. ground (arith, e)),
)

-- Whatever its options, if the constructor makes a client and does not refuse them, every state that the
-- interleavings of its methods reach is one in which a disconnected client is idle, the registered push
-- IDs are those of their subscriptions, the commands in flight have ids that were given out, and the next
-- command id is the id of no command in flight.
pub new_client-Reaches :
    (import_module : ModuleName → Import) (socks_installed : Bool) (options : ClientOptions)
    (w₀ w : World) (apply_delta : ApplyDelta) (pool : List Suspended)
    → new_client import_module socks_installed options ≡ constructed w₀
    → Reaches apply_delta w₀ w pool
    → Sound w × (get (next_command_id w).command_id w.inflight_commands ≡ none)
new_client-Reaches import_module socks_installed options w₀ w apply_delta pool e r =
    let s =
      subst Sound (new_client-constructed import_module socks_installed options w₀ e)
        (initial_client-Sound options) in
    (Reaches-Sound apply_delta w₀ w pool s r, next_command_id-fresh apply_delta w₀ w pool s r)
