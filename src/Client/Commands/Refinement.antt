-- ===== src/Client/Commands/Refinement.antt =====
-- The commands in flight (centrifuge/client.py) as a set of ids.
use centrifuge_python.Client.Safety.Dicts.{get-delete, get-put, delete_all-keys}
use centrifuge_python.Client.Registry.{is_some}
use centrifuge_python.Client.Safety.Ending.{fail_all-settles, complete-settles}
use centrifuge_python.Client.Commands.{clear_outgoing_futures, keys, complete, register_future}
use centrifuge_python.Client.World.{get, Outcome, World, Callback}
use centrifuge_python.Base.{
  ℕ, ◌≡◌, refl, ◌∙◌, ap, Bool, true, false, Option, none, some, [], ◌==◌, if◌then◌else◌,
}

-- The set of the ids in flight.
abbrev pub IdSet : Type 0
IdSet = ℕ → Bool

abbrev pub empty_set : IdSet
empty_set = λ _. false

abbrev pub insert : ℕ → IdSet → IdSet
insert k set = λ j. if j == k then true else set j

abbrev pub remove : ℕ → IdSet → IdSet
remove k set = λ j. if j == k then false else set j

abbrev pub in_flight : World → IdSet
in_flight w = λ j. is_some (get j w.inflight_commands)

some_at :
    (b : Bool) (cb : Callback) (found : Option Callback)
    → is_some (if b then some cb else found) ≡ (if b then true else is_some found)
some_at true cb found = refl
some_at false cb found = refl

none_at :
    (b : Bool) (found : Option Callback)
    → is_some (if b then none else found) ≡ (if b then false else is_some found)
none_at true found = refl
none_at false found = refl

nothing : (j : ℕ) → is_some (get {V = Callback} j []) ≡ false
unfolding get
nothing j = refl

in_flight-register :
    (with_done timeout : Bool) (k : ℕ) (w : World) (j : ℕ)
    → in_flight (register_future with_done timeout k w) j ≡ insert k (in_flight w) j
unfolding register_future
in_flight-register with_done timeout k w j =
    let cb : Callback = record { future_done = false; done = with_done; timeout = timeout } in
    ap is_some (get-put j k cb w.inflight_commands) ∙ some_at (j == k) cb _

in_flight-complete :
    (k : ℕ) (o : Outcome) (w : World) (j : ℕ)
    → in_flight (complete k o w) j ≡ remove k (in_flight w) j
in_flight-complete k o w j =
    ap (λ v. in_flight v j) (complete-settles k o w)
    ∙ ap is_some (get-delete j k w.inflight_commands)
    ∙ none_at (j == k) _

in_flight-clear : (w : World) (j : ℕ) → in_flight (clear_outgoing_futures w) j ≡ false
unfolding clear_outgoing_futures
in_flight-clear w j =
    let (cs, e) = fail_all-settles (keys w.inflight_commands) w in
    ap (λ v. in_flight v j) e
    ∙ ap (λ d. is_some (get j d)) (delete_all-keys w.inflight_commands)
    ∙ nothing j

-- The commands in flight are a set of ids: a command that is registered enters it, one that ends leaves it,
-- with the reply, an error or a timeout, and the end of the connection empties it.
pub in_flight-refines :
    (with_done timeout : Bool) (k : ℕ) (o : Outcome) (w : World) (j : ℕ)
    → (in_flight (register_future with_done timeout k w) j ≡ insert k (in_flight w) j)
      × (in_flight (complete k o w) j ≡ remove k (in_flight w) j)
      × (in_flight (clear_outgoing_futures w) j ≡ empty_set j)
in_flight-refines with_done timeout k o w j =
    (in_flight-register with_done timeout k w j, in_flight-complete k o w j, in_flight-clear w j)
