-- ===== src/Gmail/Played.antt =====
-- A mailbox in a scenario, seeded and then acted on, stays well filed.
use agent_sandbox.Gmail.Threading.{bump_next_id}
use agent_sandbox.Gmail.Scenario.{seed_from_scenario, choose, action_cases}
use agent_sandbox.Gmail.Mailbox.Naming.{put_label-IsMailbox}
use agent_sandbox.Common.BTreeMap.{contains_key}
use agent_sandbox.Gmail.Mailbox.Handling.{handle_lem}
use agent_sandbox.Common.Post.{continue-Post, state-Post, Post, ok_or-Post}
use agent_sandbox.Gmail.Mailbox.{IsMailbox}
use agent_sandbox.Gmail.Types.{GmailTwinService, GmailRequest, Gmail, SeedMessage}
use agent_sandbox.Gmail.Scenario.{
  seed_labels, seed_messages, perform_action, execute_timeline_action, perform, perform_on,
  seed_label_field, seed_message_field, add_missing, seeded_label,
}
use agent_sandbox.Gmail.Json.{Json, SeedLabel, str_field, json_str}
use agent_sandbox.Common.{
  [], none, some, List, String, Result, Bytes, Option, Bool, ◌∷◌, TwinError, ◌≡◌, true, continue,
  false, modify, ok, refl, err, arith, All, Bool-cases, str_eq, inl, inr,
}

seed_labels-IsMailbox :
    (ls : List SeedLabel) (s : GmailTwinService) → IsMailbox s → IsMailbox (seed_labels ls s)
unfolding seed_labels
seed_labels-IsMailbox [] s wf = wf
seed_labels-IsMailbox (l ∷ ls) s wf =
    seed_labels-IsMailbox ls (add_missing (contains_key l.id s.labels) (seeded_label l) s)
      (one (contains_key l.id s.labels) refl)
  where
    one : (b : Bool) → contains_key l.id s.labels ≡ b → IsMailbox (add_missing b (seeded_label l) s)
    one true e = wf
    one false e =
        put_label-IsMailbox s wf (seeded_label l) s.next_id
          (λ system. absurd (ground (arith, wf.kept l.id system)))

module _ {Value : Type 0} (json : Json Value) (decode : String → Result String Bytes)
    (to_uppercase to_lowercase : String → String) where
  abbrev Keeps : {A : Type 0} → Gmail A → Type 0
  Keeps op = (s : GmailTwinService) → IsMailbox s → Post (λ a t. IsMailbox t) IsMailbox (op s)

  seed_messages-Keeps :
      (ms : List SeedMessage) → Keeps (seed_messages json decode to_uppercase to_lowercase ms)
  unfolding seed_messages
  seed_messages-Keeps [] s wf = wf
  seed_messages-Keeps (m ∷ ms) s wf =
      continue-Post (λ a t. IsMailbox t) (λ a t. IsMailbox t) IsMailbox _ _
        (handle_lem decode to_uppercase to_lowercase (GmailRequest.insert_message m) s wf)
        (λ a t h. seed_messages-Keeps ms t h)

  seed_message_field-Keeps :
      (o : Option Value) → Keeps (seed_message_field json decode to_uppercase to_lowercase o)
  seed_message_field-Keeps none s wf = wf
  seed_message_field-Keeps (some v) s wf = go (json.as_messages v)
    where
      go :
          (r : Result TwinError (List SeedMessage))
          → Post
              (λ a t. IsMailbox t)
              IsMailbox
              (continue (r, s) (seed_messages json decode to_uppercase to_lowercase))
      go (ok ms) = seed_messages-Keeps ms s wf
      go (err e) = wf

  seed_label_field-Keeps :
      (o : Option Value) → Keeps (seed_label_field json decode to_uppercase to_lowercase o)
  seed_label_field-Keeps none s wf = wf
  seed_label_field-Keeps (some v) s wf = go (json.as_labels v)
    where
      go :
          (r : Result TwinError (List SeedLabel))
          → Post (λ a t. IsMailbox t) IsMailbox (continue (r, s) (λ ls. modify (seed_labels ls)))
      go (ok ls) = seed_labels-IsMailbox ls s wf
      go (err e) = wf

  seed_from_scenario-Keeps :
      (v : Value) → Keeps (seed_from_scenario json decode to_uppercase to_lowercase v)
  unfolding seed_from_scenario bump_next_id
  seed_from_scenario-Keeps v s wf =
      continue-Post (λ a t. IsMailbox t) (λ a t. IsMailbox t) IsMailbox _ _
        (seed_label_field-Keeps (json.field v "labels") s wf)
        λ a t h.
          continue-Post (λ a t. IsMailbox t) (λ a t. IsMailbox t) IsMailbox _
            (λ b. modify bump_next_id) (seed_message_field-Keeps (json.field v "messages") t h)
            (λ b u k. k)

  perform-Keeps :
      (endpoint : String) (r : GmailRequest)
      → Keeps (perform json decode to_uppercase to_lowercase endpoint r)
  unfolding perform
  perform-Keeps endpoint r s wf =
      continue-Post (λ a t. IsMailbox t) (λ a t. IsMailbox t) IsMailbox _ _
        (handle_lem decode to_uppercase to_lowercase r s wf) (λ a t h. h)

  perform_on-Keeps :
      (key : String) (url : String → String) (r : String → GmailRequest) (v : Value)
      → Keeps (perform_on json decode to_uppercase to_lowercase key url r v)
  unfolding perform_on
  perform_on-Keeps key url r v s wf = go (json_str json v key)
    where
      go :
          (o : Result TwinError String)
          → Post
              (λ a t. IsMailbox t)
              IsMailbox
              (continue
                (o, s)
                (λ id. perform json decode to_uppercase to_lowercase (url id) (r id)))
      go (ok id) = perform-Keeps (url id) (r id) s wf
      go (err e) = wf

  choose-Keeps :
      {A : Type 0} (name : String) (cases : List (String × Gmail A)) (other : Gmail A)
      → All (λ c. Keeps c.1) cases
      → Keeps other
      → Keeps (choose name cases other)
  unfolding choose
  choose-Keeps name [] other h k = k
  choose-Keeps name ((key, op) ∷ rest) other (h, hs) k = elim (Bool-cases (str_eq name key)) [
    | inl this ↦ rw this h
    | inr later ↦ rw later (choose-Keeps name rest other hs k)
  ]

  perform_action-Keeps :
      (actor : String) (v : Value) (type_name : String)
      → Keeps (perform_action json decode to_uppercase to_lowercase actor v type_name)
  unfolding perform_action
  perform_action-Keeps actor v type_name =
      choose-Keeps type_name (action_cases json decode to_uppercase to_lowercase actor v) _
        (
          perform-Keeps _ _,
          (
            perform_on-Keeps _ _ _ v,
            (
              perform_on-Keeps _ _ _ v,
              (
                perform_on-Keeps _ _ _ v,
                (
                  perform_on-Keeps _ _ _ v,
                  (
                    perform_on-Keeps _ _ _ v,
                    (perform_on-Keeps _ _ _ v, (perform_on-Keeps _ _ _ v, tt)),
                  ),
                ),
              ),
            ),
          ),
        )
        (λ s wf. wf)

  execute_timeline_action-Keeps :
      (v : Value) (actor : String)
      → Keeps (execute_timeline_action json decode to_uppercase to_lowercase v actor)
  unfolding execute_timeline_action
  execute_timeline_action-Keeps v actor s wf =
      continue-Post (λ a t. t ≡ s) (λ a t. IsMailbox t) IsMailbox _ _
        (ok_or-Post (λ a t. t ≡ s) IsMailbox (str_field json v "type") _ s wf (λ a e. refl))
        (λ name t e. rw e (perform_action-Keeps actor v name s wf))

  -- The state after the actions of a timeline, whatever each of them answers.
  unfoldable pub play : List (Value × String) → GmailTwinService → GmailTwinService
  play [] s = s
  play ((action, actor) ∷ rest) s =
      play rest (execute_timeline_action json decode to_uppercase to_lowercase action actor s).1

  play-IsMailbox :
      (actions : List (Value × String)) (s : GmailTwinService)
      → IsMailbox s
      → IsMailbox (play actions s)
  unfolding play
  play-IsMailbox [] s wf = wf
  play-IsMailbox ((action, actor) ∷ rest) s wf =
      play-IsMailbox rest _
        (state-Post IsMailbox _ (execute_timeline_action-Keeps action actor s wf))

  -- A mailbox that is seeded, with or without success, and then acted on by any timeline is well
  -- filed if it was before.
  pub seed-play-IsMailbox :
      (initial_state : Value) (actions : List (Value × String)) (s : GmailTwinService)
      → IsMailbox s
      → IsMailbox (
          play actions (seed_from_scenario json decode to_uppercase to_lowercase initial_state s).1)
  seed-play-IsMailbox initial_state actions s wf =
      play-IsMailbox actions _
        (state-Post IsMailbox _ (seed_from_scenario-Keeps initial_state s wf))
