-- ===== src/Resources.antt =====
-- The registry of kernel/kernel/resources.c, in the build with assertions: two lists, of the free and
-- of the claimed resources, that stand in a fixed array.
pub mod Claim
mod Tests
use yaeos.Prelude.{
  unfinished, ℕ, zero, suc, ◌+◌, ◌-◌, ◌%◌, ◌^◌, Bool, true, false, not, ltb, ◌==◌, ◌&&◌,
  if◌then◌else◌, Option, none, some,
}
use yaeos.Prelude.{List, ℤ, pos, Outcome, ok, fault, ◌>>=◌, ◌>>◌, kassert}
use yaeos.Word.{◌-w◌}
use yaeos.Align.{check_align}
use yaeos.Slist.{Heap, is_null, init, next, insert, remove_next}
use yaeos.Strings.{kstrcmp, same_int}

-- `enum resource_type`
pub data ResourceType : Type 0 where
  memory dev_buffer : ResourceType

abbrev pub same_type : ResourceType → ResourceType → Bool
same_type memory memory = true
same_type dev_buffer dev_buffer = true
same_type memory dev_buffer = false
same_type dev_buffer memory = false

-- `union resource_owner` as its word: 0 for nobody, 1 for the kernel, or the address of a module. With
-- `-fshort-enums` (confmk/common.mk) its member `state` is the low byte.
abbrev pub owner_none : ℕ
owner_none = 0

abbrev pub owner_kernel : ℕ
owner_kernel = 1

abbrev pub owner_state : ℕ → ℕ
owner_state owner = owner % 2 ^ 8

-- The offset of `list` in `struct resource`, and the alignment of that, on i686.
abbrev pub list_offset : ℕ
list_offset = 8

abbrev pub resource_align : ℕ
resource_align = 4

-- `resource_of` asserts the alignment of the resource around a list node.
unfoldable pub container_check : ℕ → Outcome (Unit {0})
container_check node = kassert (check_align (node -w list_offset) resource_align)

-- `struct resource` without its list node. Both kinds of data are an address and a length.
pub record Resource : Type 0 where
  pub device_id : List ℕ
  pub resource_id : List ℕ
  pub owner : ℕ
  pub kind : ResourceType
  pub base : ℕ
  pub len : ℕ

-- The list nodes, the resource to each list node, and `RESOURCES_NEXT_FREE_NDX`.
pub record Registry : Type 0 where
  pub heap : Heap
  pub resource_of : ℕ → Resource
  pub next_free_ndx : ℕ

abbrev pub max_resources : ℕ
max_resources = 256

-- The change of one resource.
abbrev pub update : (ℕ → Resource) → ℕ → Resource → ℕ → Resource
update resources node r a = if a == node then r else resources a

-- The addresses of the two list heads, and that of the list node of each resource of the array.
module _ (claimed_head free_head : ℕ) (node_at : ℕ → ℕ) where
  unfoldable pub resources_init : Registry → Outcome Registry
  resources_init g = do
    heap₁ ← init g.heap claimed_head
    heap₂ ← init heap₁ free_head
    ok (record g { heap = heap₂ })

  -- A full array fails the assertion.
  unfoldable pub resources_get_new : Registry → Outcome (ℕ × Registry)
  resources_get_new g = do
    kassert (not (ltb (max_resources - 1) g.next_free_ndx))
    ok (node_at g.next_free_ndx, record g { next_free_ndx = g.next_free_ndx + 1 })

  -- The loop of the two claims: the node in front of the first resource that passes the test.
  unfoldable pub find_before : ℕ → Registry → (Resource → Outcome Bool) → ℕ → Outcome (Option ℕ)
  find_before zero g test cursor = unfinished
  find_before (suc fuel) g test cursor = do
    n ← next g.heap cursor
    let further = (do
      container_check n
      hit ← test (g.resource_of n)
      let rest = find_before fuel g test n
      if hit then ok (some cursor) else rest)
    if is_null n then ok none else further

  -- What the two claims do with the node that they found.
  unfoldable pub take_over : Registry → ℕ → ℕ → Outcome (Option ℕ × Registry)
  take_over g owner cursor = do
    ref ← next g.heap cursor
    heap₁ ← remove_next g.heap cursor
    heap₂ ← insert heap₁ claimed_head ref
    container_check ref
    kassert (owner_state (g.resource_of ref).owner == owner_none)
    ok (
      some ref,
      record g {
        heap = heap₂;
        resource_of = update g.resource_of ref (record (g.resource_of ref) { owner = owner });
      },
    )

  -- With more rounds than resources are free.
  unfoldable pub claim :
      ℕ → Registry → (Resource → Outcome Bool) → ℕ → Outcome (Option ℕ × Registry)
  claim fuel g test owner = do
    found ← find_before fuel g test free_head
    elim found [ none ↦ ok (none, g) | some cursor ↦ take_over g owner cursor ]

  abbrev pub matches : List ℕ → List ℕ → Resource → Outcome Bool
  matches device_id resource_id r = do
    dev ← kstrcmp device_id r.device_id
    res ← kstrcmp resource_id r.resource_id
    ok (same_int dev (pos 0) && same_int res (pos 0))

  unfoldable pub claim_by_id : ℕ → Registry → List ℕ → List ℕ → ℕ → Outcome (Option ℕ × Registry)
  claim_by_id fuel g device_id resource_id owner =
      claim fuel g (matches device_id resource_id) owner

  unfoldable pub claim_by_type : ℕ → Registry → ResourceType → ℕ → Outcome (Option ℕ × Registry)
  claim_by_type fuel g kind owner = claim fuel g (λ r. ok (same_type r.kind kind)) owner

  unfoldable pub resources_claim_by_id :
      ℕ → Registry → List ℕ → List ℕ → ℕ → Outcome (Option ℕ × Registry)
  resources_claim_by_id fuel g device_id resource_id owner =
      claim_by_id fuel g device_id resource_id owner

  unfoldable pub resources_claim_by_type :
      ℕ → Registry → ResourceType → ℕ → Outcome (Option ℕ × Registry)
  resources_claim_by_type fuel g kind owner = claim_by_type fuel g kind owner

  unfoldable pub resources_kclaim_by_id :
      ℕ → Registry → List ℕ → List ℕ → Outcome (Option ℕ × Registry)
  resources_kclaim_by_id fuel g device_id resource_id =
      claim_by_id fuel g device_id resource_id owner_kernel

  unfoldable pub resources_kclaim_by_type :
      ℕ → Registry → ResourceType → Outcome (Option ℕ × Registry)
  resources_kclaim_by_type fuel g kind = claim_by_type fuel g kind owner_kernel

  unfoldable pub resources_register :
      Registry → List ℕ → List ℕ → ResourceType → ℕ → ℕ → Outcome Registry
  resources_register g device_id resource_id kind base len = do
    (new, g₁) ← resources_get_new g
    heap₁ ← init g₁.heap new
    let unowned = (g₁.resource_of new).owner - owner_state (g₁.resource_of new).owner
    let r : Resource = record {
      device_id = device_id;
      resource_id = resource_id;
      owner = unowned;
      kind = kind;
      base = base;
      len = len;
    }
    heap₂ ← insert heap₁ free_head new
    ok (record g₁ { heap = heap₂; resource_of = update g₁.resource_of new r })
