-- ===== src/Execution/LiveBroker/Recording.antt =====
-- A venue that notes its requests, for what the live broker of live_broker_alpaca.py asks for and how
-- the venue answers. The notes follow the client of alpaca_rest.py: an error status, an error of the
-- transport and a body that is not JSON are refusals.
use caqrs.Prelude.{
  ℕ, zero, suc, Bool, true, false, String, List, [], ◌∷◌, ◌≡◌, refl, ◌∙◌, inl, inr, arith, map, any,
  All, leb, Text, Option, none, some, if◌then◌else◌, Reply, returned, raised, Option-cases,
  Bool-cases,
}
use caqrs.Prelude.Effects.{Action, Keeps, and_then}
use caqrs.Prelude.Decimal.{Decimal}
use caqrs.Prelude.Dict.{Dict}
use caqrs.Policy.Gateway.{FeasibleAction}
use caqrs.Execution.Report.{Fill, ExecutionStatus}
use caqrs.Execution.Journal.{Submission}
use caqrs.Execution.AlpacaRest.{
  Http, AlpacaOrder, Payload, order, unreadable, not_json, Response, transport_error, response,
  done, alpaca_error, other_error, order_response, read_order,
}
use caqrs.Execution.LiveBroker.{Live, emit, emit_rejected, end_with}
use caqrs.Execution.LiveBroker.Submit.{Digest, register, emit_submitted, accept, submission_of}
use caqrs.Orchestrator.Listeners.{Listener, notify}
use caqrs.Orchestrator.Events.{CycleEvent}
use caqrs.Orchestrator.EventLog.{Codec, append}

-- An order that the venue took, refused or answered without its fields; a cancellation of all orders
-- that it answered without an error status, and one that failed.
pub data Request : Type 0 where
  taken refused unread cancelled uncancelled : Request

abbrev pub is_refused : Request → Bool
is_refused refused = true
is_refused _ = false

-- The newest note, and `n` orders that were taken.
abbrev pub newest : List Request → Option Request
newest [] = none
newest (r ∷ older) = some r

abbrev pub all_taken : ℕ → List Request
all_taken zero = []
all_taken (suc n) = taken ∷ all_taken n

pub none_refused : (n : ℕ) → any is_refused (all_taken n) ≡ false
none_refused zero = refl
none_refused (suc n) = none_refused n

module _ {ℓ} {A : Type ℓ} where
  abbrev pub note_body : Payload A → Request
  note_body (order o) = taken
  note_body unreadable = unread
  note_body not_json = refused

  abbrev pub note_post : Response A → Request
  note_post (transport_error text) = refused
  note_post (response status body) = if leb 400 status then refused else note_body body

  abbrev pub note_delete : Response A → Request
  note_delete (transport_error text) = uncancelled
  note_delete (response status body) = if leb 400 status then uncancelled else cancelled

module _ {κ} {W : Type κ} where
  -- A listener that acts on the rest of the world; listeners that leave the notes alone.
  abbrev pub unnoted : Listener CycleEvent W → Listener CycleEvent (W × List Request)
  unnoted listener event v = let (answer, w) = listener event v.0 in (answer, (w, v.1))

  abbrev pub IsDeaf : Listener CycleEvent (W × List Request) → Type κ
  IsDeaf listener = (event : CycleEvent) (v : W × List Request) → (listener event v).1.1 ≡ v.1

  unnoted-AllDeaf : (listeners : List (Listener CycleEvent W)) → All IsDeaf (map unnoted listeners)
  unnoted-AllDeaf [] = tt
  unnoted-AllDeaf (listener ∷ rest) = (λ event v. refl, unnoted-AllDeaf rest)

  notify-notes :
      (listeners : List (Listener CycleEvent (W × List Request))) (event : CycleEvent)
      (v : W × List Request)
      → All IsDeaf listeners
      → (notify listeners event v).1.1 ≡ v.1
  unfolding notify
  notify-notes [] event v h = refl
  notify-notes (listener ∷ rest) event v h =
      ground (arith, h.0 event v, notify-notes rest event (listener event v).1 h.1)

module _ {ℓ κ} {A : Type ℓ} {W : Type κ} where
  -- The venue with its notes, newest first.
  abbrev pub noting : Http A W → Http A (W × List Request)
  noting http = record {
    post = λ body v. let (answer, w) = http.post body v.0 in (answer, (w, note_post answer ∷ v.1));
    delete = λ v. let (answer, w) = http.delete v.0 in (answer, (w, note_delete answer ∷ v.1));
  }

  -- A state with no notes yet.
  abbrev pub noted : Live A W → Live A (W × List Request)
  noted s = record {
    broker = s.broker;
    log = record {
      events = s.log.events;
      persist_to = s.log.persist_to;
      listeners = map unnoted s.log.listeners;
    };
    world = (s.world, []);
  }

  abbrev pub notes : Live A (W × List Request) → List Request
  notes s = s.world.1

  abbrev pub AllDeaf : Live A (W × List Request) → Type κ
  AllDeaf s = All IsDeaf s.log.listeners

  pub noted-AllDeaf : (s : Live A W) → AllDeaf (noted s)
  noted-AllDeaf s = unnoted-AllDeaf s.log.listeners

  -- A statement that asks the venue nothing.
  abbrev pub Silent : Live A (W × List Request) → Live A (W × List Request) → Type κ
  Silent s s' = AllDeaf s → AllDeaf s' × (notes s' ≡ notes s)

  pub and_then-Silent {μ ν} :
      {B : Type μ} {C : Type ν} (s : Live A (W × List Request)) (r : Reply B)
      (s' : Live A (W × List Request)) (f : B → Action (Live A (W × List Request)) C)
      → Silent s s'
      → ((b : B) → Keeps Silent (f b))
      → Silent s (and_then r f s').1
  and_then-Silent s (returned b) s' f h k deaf =
      let (deaf', e) = h deaf in let (deaf'', e') = k b s' deaf' in (deaf'', e' ∙ e)
  and_then-Silent s raised s' f h k deaf = h deaf

module _ {ℓ κ} {A : Type ℓ} {W : Type κ} (codec : Codec) where
  pub emit-Silent :
      (event : String → CycleEvent) → Keeps (Silent {A = A} {W = W}) (emit codec event)
  unfolding emit append
  emit-Silent event s deaf = elim (Option-cases s.broker.cycle_id) [
    | inl e ↦ rw (emit, e) (deaf, refl)
    | inr (c, e) ↦ elim (Bool-cases s.broker.has_event_log) [
      | inl on ↦ rw (emit, e, on) (deaf, notify-notes s.log.listeners (event c) s.world deaf)
      | inr off ↦ rw (emit, e, off) (deaf, refl)
    ]
  ]

  pub end_with-Silent :
      (status : ExecutionStatus) (action : FeasibleAction A) (reason : Text)
      → Keeps (Silent {W = W}) (end_with codec status action reason)
  unfolding end_with emit_rejected
  end_with-Silent status action reason s =
      and_then-Silent s (emit_rejected codec action.source_decision_run_id reason s).0
        (emit_rejected codec action.source_decision_run_id reason s).1 _ (emit-Silent _ s)
        (λ _ s' deaf. (deaf, refl))

module _ {ℓ κ} {A : Type ℓ} {W : Type κ} (codec : Codec) (d : Decimal A) (digest : Digest)
    (http : Http A (W × List Request)) where
  register-Silent : (row : Submission) → Keeps Silent (register codec d digest http row)
  unfolding register
  register-Silent row s deaf = ground (arith, deaf)

  pub accept-Silent :
      (action : FeasibleAction A) (prices : Dict A) (f : Fill A) (o : AlpacaOrder A)
      → Keeps Silent (accept codec d digest http action prices f o)
  unfolding accept emit_submitted
  accept-Silent action prices f o s =
      let row = submission_of codec d digest http s.broker action f o in
      and_then-Silent s (register codec d digest http row s).0
        (register codec d digest http row s).1 _ (register-Silent row s)
        (λ _ s'. and_then-Silent s' _ _ _ (emit-Silent codec _ s') (λ _ s'' deaf. (deaf, refl)))

module _ {ℓ κ} {A : Type ℓ} {W : Type κ} (d : Decimal A) (http : Http A W) where
  -- What the notes say of an order, by what the client makes of it.
  pub note_done :
      (r : Response A) (o : AlpacaOrder A) → order_response d http r ≡ done o → note_post r ≡ taken
  unfolding order_response read_order
  note_done (transport_error text) o h = cc h
  note_done (response status (order x)) o h = ground (arith, h)
  note_done (response status unreadable) o h = ground (arith, h)
  note_done (response status not_json) o h = ground (arith, h)

  pub note_alpaca_error :
      (r : Response A) (text : Text)
      → order_response d http r ≡ alpaca_error text
      → note_post r ≡ refused
  unfolding order_response read_order
  note_alpaca_error (transport_error _) text h = refl
  note_alpaca_error (response status (order x)) text h = ground (arith, h)
  note_alpaca_error (response status unreadable) text h = ground (arith, h)
  note_alpaca_error (response status not_json) text h = ground (arith, h)

  pub note_other_error :
      (r : Response A) → order_response d http r ≡ other_error → note_post r ≡ unread
  unfolding order_response read_order
  note_other_error (transport_error text) h = cc h
  note_other_error (response status (order x)) h = ground (arith, h)
  note_other_error (response status unreadable) h = ground (arith, h)
  note_other_error (response status not_json) h = ground (arith, h)
