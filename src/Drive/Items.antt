-- ===== src/Drive/Items.antt =====
-- The map of items: every entry stands under the identifier of its item.
use agent_sandbox.Common.{String, ◌≡◌, some, [], ◌∷◌, arith, eq_iff}
use agent_sandbox.Common.BTreeMap.{BTreeMap, get, insert, remove, update}
use agent_sandbox.Drive.Types.{DriveItem}

abbrev pub HasOwnIds : BTreeMap DriveItem → Type 0
HasOwnIds [] = Unit
HasOwnIds ((key, item) ∷ items) = (item.id ≡ key) × HasOwnIds items

pub own_id_of_get :
    (items : BTreeMap DriveItem) (key : String) (item : DriveItem)
    → HasOwnIds items
    → get key items ≡ some item
    → item.id ≡ key
unfolding get
own_id_of_get [] key item own e = absurd (cc)
own_id_of_get ((j, it) ∷ items) key item (same, own) e =
    ground (arith, eq_iff j key, own_id_of_get items key item own)

pub HasOwnIds-insert :
    (items : BTreeMap DriveItem) (key : String) (item : DriveItem)
    → item.id ≡ key
    → HasOwnIds items
    → HasOwnIds (insert key item items)
unfolding insert
HasOwnIds-insert [] key item e own = (e, tt)
HasOwnIds-insert ((j, it) ∷ items) key item e (same, own) =
    ground (arith, HasOwnIds-insert items key item e own)

pub HasOwnIds-remove :
    (items : BTreeMap DriveItem) (key : String) → HasOwnIds items → HasOwnIds (remove key items)
unfolding remove
HasOwnIds-remove [] key own = tt
HasOwnIds-remove ((j, it) ∷ items) key (same, own) = ground (arith, HasOwnIds-remove items key own)

pub HasOwnIds-update :
    (items : BTreeMap DriveItem) (key : String) (item : DriveItem)
    → item.id ≡ key
    → HasOwnIds items
    → HasOwnIds (update key (λ _. item) items)
unfolding update
HasOwnIds-update [] key item e own = tt
HasOwnIds-update ((j, it) ∷ items) key item e (same, own) =
    (ground (arith, eq_iff j key), HasOwnIds-update items key item e own)
