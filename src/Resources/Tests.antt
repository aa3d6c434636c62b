-- ===== src/Resources/Tests.antt =====
-- The registry of kernel/kernel/resources.c at a concrete state.
use yaeos.Prelude.{◌≡◌, refl, arith, [], ◌∷◌, some, ok, ◌==◌, ◌+◌, ◌*◌, if◌then◌else◌}
use yaeos.Slist.{Heap, assign}
use yaeos.Slist.Chain
use yaeos.Slist.Chain.{Chain, end, link}
use yaeos.Align.{align_rounddown, check_align}
use yaeos.Resources.{
  container_check, Registry, Resource, memory, dev_buffer, owner_kernel, update, claim_by_type,
}
use yaeos.Resources.Claim.{Lists, no_node, and_node, none_left, other_kind, claim_by_type_lem}

abbrev screen : Resource
screen = record {
  device_id = 118 ∷ 0 ∷ [];
  resource_id = 98 ∷ 0 ∷ [];
  owner = 0;
  kind = dev_buffer;
  base = 753664;
  len = 4000;
}

abbrev ram : Resource
ram = record {
  device_id = 109 ∷ 0 ∷ [];
  resource_id = 114 ∷ 0 ∷ [];
  owner = 0;
  kind = memory;
  base = 1048576;
  len = 65536;
}

-- The head 8 of the claimed ones, the head 4 of the free ones, and two free resources.
abbrev registry : Registry
registry = record {
  heap = assign (assign (λ a. 0) 4 108) 108 136;
  resource_of = λ a. if a == 108 then screen else ram;
  next_free_ndx = 2;
}

registry-Lists : Lists registry 8 4 (108 ∷ 136 ∷ []) []
registry-Lists = record {
  free =
      link 4 108 (omega arith) refl
        (Chain.cons 108 (omega arith) (Chain.cons 136 (omega arith) Chain.nil))
        (link 108 136 (omega arith) refl (Chain.cons 136 (omega arith) Chain.nil)
          (end 136 (omega arith) refl));
  claimed = end 8 (omega arith) refl;
  two_heads = omega arith;
  claimed_apart = Chain.cons 108 (omega arith) (Chain.cons 136 (omega arith) Chain.nil);
  free_apart = Chain.nil;
  disjoint = and_node 108 Chain.nil (and_node 136 Chain.nil no_node);
}

claim_by_type_lem_example :
    (heap' : Heap) × (claim_by_type 8 4 (λ i. 108 + 28 * i) 2 registry memory owner_kernel
      ≡ ok (
        some 136,
        record registry {
          heap = heap';
          resource_of = update registry.resource_of 136 (record ram { owner = owner_kernel });
        },
      ))
    × Chain heap' 4 (108 ∷ [])
    × Chain heap' 8 (136 ∷ [])
unfolding container_check check_align align_rounddown
claim_by_type_lem_example =
    claim_by_type_lem registry 8 4 (λ i. 108 + 28 * i) memory owner_kernel 2 (108 ∷ []) 136 [] []
      registry-Lists (other_kind 108 refl none_left) refl refl (refl, (refl, tt)) (omega arith)
