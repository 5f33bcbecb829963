-- ===== src/Gmail/Mailbox/Naming.antt =====
-- Labels that are made, renamed and deleted: the system labels stay what they are.
use agent_sandbox.Common.BTreeMap.Order.{IsSorted-update, IsSorted-insert, IsSorted-remove}
use agent_sandbox.Common.{none}
use agent_sandbox.Gmail.Mailbox.Changing.{map-some, each-IsFiled, map-if}
use agent_sandbox.Gmail.Threading.{new_id}
use agent_sandbox.Common.Post.{Post, continue-Post, ok_or-Post, require-Post}
use agent_sandbox.Gmail.Labels.{
  delete_label, updated_label, update_label, create_label, put_label, is_user, without_label,
  fetch_label, new_label, has_name,
}
use agent_sandbox.Gmail.Mailbox.{IsMailbox, labels-IsFiled}
use agent_sandbox.Gmail.Types.{system_labels, GmailTwinService, GmailLabel, Gmail, GmailResponse}
use agent_sandbox.Common.BTreeMap.{
  is_some, get, map_values, update, insert, get-insert, remove, values, get-remove, get-update,
}
use agent_sandbox.Common.{
  String, Bool, contains, List, ◌<>◌, all, strip_prefix, ◌≡◌, true, arith, not, strip_prefix-append,
  ◌∷◌, eq_iff, refl, [], Option, ℕ, TwinError, some, require, continue, any, Bool-cases,
  if◌then◌else◌, ◌>>◌, str_eq, sym, inl, inr, ◌∙◌, to_string, ◌+◌, ◌%◌, u64_mod,
}

all-contains :
    (q : String → Bool) (xs : List String) (x : String)
    → all q xs ≡ true
    → contains x xs ≡ true
    → q x ≡ true
all-contains q [] x h e = absurd (ground arith)
all-contains q (y ∷ ys) x h e = ground (arith, eq_iff y x, all-contains q ys x)

abbrev is_fresh : String → Bool
is_fresh id = is_some (strip_prefix id "Label_")

-- A fresh identifier is not one of a system label.
contains-fresh : (n : String) → contains ("Label_" <> n) system_labels ≡ true → ⊥
contains-fresh n e = absurd (
    ground (
      arith,
      strip_prefix-append "Label_" n,
      all-contains (λ id. not (is_fresh id)) system_labels ("Label_" <> n) old e,
    ))
  where
    old : all (λ id. not (is_fresh id)) system_labels ≡ true
    old = unfold strip_prefix in refl

module _ (s : GmailTwinService) (wf : IsMailbox s) where
  pub put_label-IsMailbox :
      (l : GmailLabel) (n : ℕ)
      → (contains l.id system_labels ≡ true → ⊥)
      → IsMailbox (put_label l (record s { next_id = n }))
  put_label-IsMailbox l n fresh =
      labels-IsFiled s.messages s.threads s.labels wf (insert l.id l s.labels)
        (IsSorted-insert l.id l s.labels wf.sorted_labels)
        (λ k m e. ground (arith, get-insert k l.id l s.labels, eq_iff l.id k, wf.own_labels k m))
        (λ k system. elim (Bool-cases (str_eq l.id k)) [
          | inl same ↦ absurd (fresh (ground (arith, eq_iff l.id k)))
          | inr other ↦ ground (arith, get-insert k l.id l s.labels)
        ])

  pub create_label_lem :
      (name : String) (visibility label_visibility : Option String)
      → Post (λ a t. IsMailbox t) IsMailbox (create_label name visibility label_visibility s)
  unfolding create_label new_id
  create_label_lem name visibility label_visibility =
      continue-Post (λ u t. t ≡ s) (λ a t. IsMailbox t) IsMailbox
        (require (not (any (has_name name) (values s.labels))) _ s) _
        (require-Post (λ u t. t ≡ s) IsMailbox _ _ s wf (λ h. refl))
        λ u t e. rw e (
          put_label-IsMailbox
            (new_label ("Label_" <> to_string s.next_id) name visibility label_visibility)
            ((s.next_id + 1) % u64_mod) (contains-fresh (to_string s.next_id)))

  -- A label of the user is not one of the system's.
  user_label_lem :
      (id : String) (l : GmailLabel)
      → get id s.labels ≡ some l
      → is_user l ≡ true
      → contains id system_labels ≡ true
      → ⊥
  user_label_lem id l found user system = absurd (ground (arith, wf.kept id system))

updated_label-id :
    (name visibility label_visibility : Option String) (l : GmailLabel)
    → (updated_label name visibility label_visibility l).id ≡ l.id
updated_label-id none none none l = refl
updated_label-id none none (some w) l = refl
updated_label-id none (some v) none l = refl
updated_label-id none (some v) (some w) l = refl
updated_label-id (some n) none none l = refl
updated_label-id (some n) none (some w) l = refl
updated_label-id (some n) (some v) none l = refl
updated_label-id (some n) (some v) (some w) l = refl

module _ (s : GmailTwinService) (wf : IsMailbox s) (id : String) where
  abbrev Found : GmailLabel → GmailTwinService → Type 0
  Found l t = (t ≡ s) × (get id s.labels ≡ some l)

  fetch_user_label_lem :
      (e : TwinError) (f : GmailLabel → Gmail GmailResponse)
      → ((l : GmailLabel)
          → get id s.labels ≡ some l
          → is_user l ≡ true
          → Post (λ a t. IsMailbox t) IsMailbox (f l s))
      → Post
          (λ a t. IsMailbox t)
          IsMailbox
          (continue (fetch_label id s) (λ l. require (is_user l) e >> f l))
  fetch_user_label_lem e f h =
      continue-Post Found (λ a t. IsMailbox t) IsMailbox (fetch_label id s) _
        (ok_or-Post Found IsMailbox (get id s.labels) _ s wf (λ l found. (refl, found)))
        λ l t (same, found). rw same (
          continue-Post (λ u t. (t ≡ s) × (is_user l ≡ true)) (λ a t. IsMailbox t) IsMailbox
            (require (is_user l) e s) _
            (require-Post (λ u t. (t ≡ s) × (is_user l ≡ true)) IsMailbox _ _ s wf
              (λ user. (refl, user)))
            λ u v (here, user). rw here (h l found user))

  pub update_label_lem :
      (name visibility label_visibility : Option String)
      → Post (λ a t. IsMailbox t) IsMailbox (update_label id name visibility label_visibility s)
  unfolding update_label
  update_label_lem name visibility label_visibility = fetch_user_label_lem _ _ λ l found user.
      labels-IsFiled s.messages s.threads s.labels wf (update id f s.labels)
        (IsSorted-update id f s.labels wf.sorted_labels)
        (λ k m e.
          let (old, had, made) =
            map-some (λ o. if str_eq id k then f o else o) (get k s.labels) m
              (sym (get-update k id f s.labels ∙ map-if (str_eq id k) f (get k s.labels)) ∙ e) in
          ground
            (arith, wf.own_labels k old had, updated_label-id name visibility label_visibility old))
        (λ k system.
          ground
            (arith, get-update k id f s.labels, eq_iff id k, user_label_lem s wf id l found user))
    where
      f : GmailLabel → GmailLabel
      f = updated_label name visibility label_visibility

  pub delete_label_lem : Post (λ a t. IsMailbox t) IsMailbox (delete_label id s)
  unfolding delete_label
  delete_label_lem = fetch_user_label_lem _ _ λ l found user.
      let t = record s { messages = map_values (without_label id) s.messages } in
      labels-IsFiled t.messages s.threads s.labels
        (each-IsFiled s wf (without_label id) (λ m. refl) (λ m. refl)) (remove id s.labels)
        (IsSorted-remove id s.labels wf.sorted_labels)
        (λ k m e. ground (arith, get-remove k id s.labels, wf.own_labels k m))
        (λ k system.
          ground
            (arith, get-remove k id s.labels, eq_iff id k, user_label_lem s wf id l found user))
