-- ===== src/Policy/Authority.antt =====
-- What no combination of layers can allow.
use yeu_xharness.Base.{
  Bool, true, ◌&&◌, ◌||◌, ◌≡◌, sym, ◌∙◌, List, [], ◌∷◌, arith, all, is_empty, and_parts,
}
use yeu_xharness.Protocol.Ids.{DateTime}
use yeu_xharness.Protocol.Tool.{CapabilityGrant, CapabilityMode, EffectSet, minimum}
use yeu_xharness.Policy.Scopes.{exact_scope_allows, path_scope_allows}
use yeu_xharness.Policy.Grants.{intersect_two, intersect_onto, intersect_grants}
use yeu_xharness.Policy.Evaluate.{PolicyInput, is_allowed, evaluate_policy, external_scope}
use yeu_xharness.Policy.Meet.{
  Kind, kinds, time, reads, writes, deletes, processes, networks, secret_names, externals, covers,
  at_least, permits, at_least-minimum,
}
use yeu_xharness.Policy.Decision.{all_resolved, is_allowed-decide, layers}

-- A mode below `build` comes with no write, deletion or process; one below `operate` with no
-- external write.
abbrev pub fits_mode : EffectSet → CapabilityMode → Bool
fits_mode e mode =
    (at_least CapabilityMode.build mode
      || (is_empty e.filesystem_write && (is_empty e.filesystem_delete && is_empty e.processes)))
    && (at_least CapabilityMode.operate mode || is_empty e.external_writes)

-- Where the first test fails on all items, there are no items.
pub all_gated :
    {A : Type 0} (b : Bool) (p : A → Bool) (xs : List A)
    → all (λ x. b && p x) xs ≡ true
    → (b || is_empty xs) ≡ true
all_gated b p [] h = ground arith
all_gated b p (x ∷ xs) h = ground arith

process_gate :
    (vacant mode flag : Bool) → (vacant || (mode && flag)) ≡ true → (mode || vacant) ≡ true
process_gate vacant mode flag h = ground arith

pub all-kinds : (p : Kind → Bool) (k : Kind) → all p kinds ≡ true → p k ≡ true
all-kinds p time h = ground arith
all-kinds p reads h = ground arith
all-kinds p writes h = ground arith
all-kinds p deletes h = ground arith
all-kinds p processes h = ground arith
all-kinds p networks h = ground arith
all-kinds p secret_names h = ground arith
all-kinds p externals h = ground arith

pub all_covers :
    (g : CapabilityGrant) (e : EffectSet) (now : DateTime) (k : Kind)
    → permits g e now ≡ true
    → covers k g e now ≡ true
all_covers g e now k h = all-kinds (λ k'. covers k' g e now) k h

gate :
    (g : CapabilityGrant) (e : EffectSet) (now : DateTime)
    → permits g e now ≡ true
    → ((at_least CapabilityMode.build g.mode || is_empty e.filesystem_write) ≡ true)
      × ((at_least CapabilityMode.build g.mode || is_empty e.filesystem_delete) ≡ true)
      × ((at_least CapabilityMode.build g.mode || is_empty e.processes) ≡ true)
      × ((at_least CapabilityMode.operate g.mode || is_empty e.external_writes) ≡ true)
gate g e now h = (
  all_gated (at_least CapabilityMode.build g.mode)
      (λ s. path_scope_allows g.filesystem_write s.path) e.filesystem_write
      (all_covers g e now writes h),
  all_gated (at_least CapabilityMode.build g.mode)
      (λ s. path_scope_allows g.filesystem_delete s.path) e.filesystem_delete
      (all_covers g e now deletes h),
  process_gate (is_empty e.processes) (at_least CapabilityMode.build g.mode) g.process
      (all_covers g e now processes h),
  all_gated (at_least CapabilityMode.operate g.mode)
      (λ x. exact_scope_allows g.external_write (external_scope x)) e.external_writes
      (all_covers g e now externals h),
)

fits_of_gates :
    (e : EffectSet) (mode : CapabilityMode)
    → (at_least CapabilityMode.build mode || is_empty e.filesystem_write) ≡ true
    → (at_least CapabilityMode.build mode || is_empty e.filesystem_delete) ≡ true
    → (at_least CapabilityMode.build mode || is_empty e.processes) ≡ true
    → (at_least CapabilityMode.operate mode || is_empty e.external_writes) ≡ true
    → fits_mode e mode ≡ true
fits_of_gates e mode w d p x = ground arith

fits_mode-minimum :
    (e : EffectSet) (l r : CapabilityMode)
    → fits_mode e (minimum l r) ≡ true
    → (fits_mode e l ≡ true) × (fits_mode e r ≡ true)
fits_mode-minimum e l r h =
    ground (
      arith,
      at_least-minimum CapabilityMode.build l r,
      at_least-minimum CapabilityMode.operate l r,
    )

fits_mode-intersect_onto :
    (e : EffectSet) (g : CapabilityGrant) (gs : List CapabilityGrant)
    → fits_mode e (intersect_onto g gs).mode ≡ true
    → all (λ h. fits_mode e h.mode) (g ∷ gs) ≡ true
unfolding intersect_onto intersect_two
fits_mode-intersect_onto e g [] h = ground arith
fits_mode-intersect_onto e g (k ∷ gs) h =
    ground (
      arith,
      fits_mode-intersect_onto e (intersect_two g k) gs h,
      fits_mode-minimum e g.mode k.mode,
    )

-- Whatever the scopes of the layers are: an allowed effect set fits the mode of every one of the
-- four layers, so a layer below `build` excludes writes, deletions and processes, and one below
-- `operate` excludes external writes.
pub allowed-fits_mode :
    (i : PolicyInput)
    → is_allowed (evaluate_policy i) ≡ true
    → all (λ g. fits_mode i.effects g.mode) (layers i) ≡ true
unfolding evaluate_policy intersect_grants
allowed-fits_mode i h =
    let g = intersect_grants (layers i) in
    let (w, d, p, x) =
      gate g i.effects i.now
        (and_parts (all_resolved i.effects) _ (sym (is_allowed-decide g i.effects i.now) ∙ h)).1 in
    fits_mode-intersect_onto i.effects i.host_ceiling
      (i.user_profile ∷ i.project_trust ∷ i.turn_override ∷ [])
      (fits_of_gates i.effects g.mode w d p x)
