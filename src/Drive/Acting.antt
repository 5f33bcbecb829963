-- ===== src/Drive/Acting.antt =====
-- A timeline action of the Drive twin is a request: what comes before the request only reads.
use agent_sandbox.Drive.Handle.{handle}
use agent_sandbox.Drive.Scenario.{
  item_action, required, permission_action, create_action, drive_action, action_request,
  drive_actions, string_field, parse_role, encoded,
}
use agent_sandbox.Gmail.Scenario.{choose, TimelineActionResult}
use agent_sandbox.Common.Post.{Post, continue-Post, ok_or-Post, state-Post}
use agent_sandbox.Common.{
  [], ◌∷◌, ok, err, String, Option, ◌>>=◌, ok_or, List, ◌≡◌, Result, All, ℕ, refl, continue,
  Bool-cases, str_eq, pure, inl, inr,
}
use agent_sandbox.Drive.Types.{DriveTwinService, DriveRequest, DriveResponse, Drive, Failure}

-- The operation reads the state and leaves it alone.
abbrev IsQuiet : {A : Type 0} → Drive A → Type 0
IsQuiet op = (s : DriveTwinService) → Post (λ a t. t ≡ s) (λ t. t ≡ s) (op s)

bind-IsQuiet :
    {A B : Type 0} (m : Drive A) (f : A → Drive B)
    → IsQuiet m
    → ((a : A) → IsQuiet (f a))
    → IsQuiet (m >>= f)
bind-IsQuiet m f h k s =
    continue-Post (λ a t. t ≡ s) (λ b t. t ≡ s) (λ t. t ≡ s) (m s) f (h s) (λ a t e. rw e (k a s))

ok_or-IsQuiet : {A : Type 0} (o : Option A) (e : Failure) → IsQuiet (ok_or o e)
ok_or-IsQuiet o e s = ok_or-Post (λ a t. t ≡ s) (λ t. t ≡ s) o e s refl (λ a found. refl)

choose-IsQuiet :
    {A : Type 0} (name : String) (cases : List (String × Drive A)) (other : Drive A)
    → All (λ c. IsQuiet c.1) cases
    → IsQuiet other
    → IsQuiet (choose name cases other)
unfolding choose
choose-IsQuiet name [] other h k = k
choose-IsQuiet name ((key, op) ∷ rest) other (h, hs) k = elim (Bool-cases (str_eq name key)) [
  | inl this ↦ rw this h
  | inr later ↦ rw later (choose-IsQuiet name rest other hs k)
]

-- A failure that leaves the state has what held of it.
refused-Post :
    {A : Type 0} (P : DriveTwinService → Type 0) (s : DriveTwinService)
    (r : Result Failure A × DriveTwinService)
    → P s
    → Post (λ a t. t ≡ s) (λ t. t ≡ s) r
    → Post (λ a t. t ≡ s) P r
refused-Post P s (ok a, t) here h = h
refused-Post P s (err e, t) here h = rw h here

kept-Post :
    {A : Type 0} (P : DriveTwinService → Type 0) (r : Result Failure A × DriveTwinService)
    → P r.1
    → Post (λ a t. P t) P r
kept-Post P (ok a, t) h = h
kept-Post P (err e, t) h = h

module _ {V : Type 0} (str_field : V → String → Option String)
    (to_value : DriveResponse → Result String V) where
  required-IsQuiet :
      (v : V) (key message : String) → IsQuiet (required str_field to_value v key message)
  required-IsQuiet v key message = ok_or-IsQuiet _ _

  item_action-IsQuiet :
      (make : String → DriveRequest) (v : V) → IsQuiet (item_action str_field to_value make v)
  item_action-IsQuiet make v =
      bind-IsQuiet (string_field str_field to_value v "item_id") _ (required-IsQuiet v _ _)
        (λ item s. refl)

  create_action-IsQuiet :
      (endpoint : String) (make : String → String → DriveRequest) (v : V)
      → IsQuiet (create_action str_field to_value endpoint make v)
  create_action-IsQuiet endpoint make v =
      bind-IsQuiet (string_field str_field to_value v "parent_id") _ (required-IsQuiet v _ _)
        λ parent.
          bind-IsQuiet (string_field str_field to_value v "name") _ (required-IsQuiet v _ _)
            (λ name s. refl)

  permission_action-IsQuiet :
      (actor : String) (v : V) → IsQuiet (permission_action str_field to_value actor v)
  permission_action-IsQuiet actor v =
      bind-IsQuiet (string_field str_field to_value v "item_id") _ (required-IsQuiet v _ _) λ item.
        bind-IsQuiet (string_field str_field to_value v "target_actor_id") _
          (required-IsQuiet v _ _)
          λ target.
            bind-IsQuiet (string_field str_field to_value v "role") _ (required-IsQuiet v _ _)
              λ role_str.
                bind-IsQuiet (ok_or (parse_role role_str) _) _ (ok_or-IsQuiet _ _) (λ role s. refl)

  action_request-IsQuiet :
      (actor : String) (v : V) → IsQuiet (action_request str_field to_value actor v)
  unfolding action_request
  action_request-IsQuiet actor v =
      bind-IsQuiet (required str_field to_value v "type" "action missing 'type'") _
        (required-IsQuiet v _ _)
        λ kind.
          choose-IsQuiet kind (drive_actions str_field to_value actor v) _
            (
              create_action-IsQuiet _ _ v,
              (
                create_action-IsQuiet _ _ v,
                (
                  permission_action-IsQuiet actor v,
                  (item_action-IsQuiet _ v, (item_action-IsQuiet _ v, tt)),
                ),
              ),
            )
            (λ s. refl)

  -- What holds of the state and after every request holds after an action.
  pub drive_action-state :
      (P : DriveTwinService → Type 0) (fuel : ℕ) (v : V) (actor : String) (s : DriveTwinService)
      → P s
      → ((r : DriveRequest) → P (handle fuel r s).1)
      → P (drive_action str_field to_value fuel v actor s).1
  unfolding drive_action
  drive_action-state P fuel v actor s here after = state-Post P _ (
      continue-Post (λ c t. t ≡ s) (λ a t. P t) P _ _
        (refused-Post P s _ here (action_request-IsQuiet actor v s))
        λ call t e. rw e (
          continue-Post (λ a u. P u) (λ a u. P u) P _ _ (kept-Post P _ (after call.1))
            (λ answer u h. answered (to_value answer) call.0 u h)))
    where
      answered :
          (r : Result String V) (endpoint : String) (u : DriveTwinService)
          → P u
          → Post {A = TimelineActionResult V}
              (λ a t. P t)
              P
              (continue
                (encoded str_field to_value r u)
                (λ value. pure (record { endpoint = endpoint; response = value })))
      answered (ok value) endpoint u h = h
      answered (err e) endpoint u h = h
