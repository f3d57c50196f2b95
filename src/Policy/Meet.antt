-- ===== src/Policy/Meet.antt =====
-- What one grant permits, stated for itself, and that the intersection of grants permits exactly
-- what each of them does.
use yeu_xharness.Base.{
  ℕ, Bool, true, ◌&&◌, ◌||◌, not, ◌≡◌, refl, ◌∙◌, List, [], ◌∷◌, Option, arith, all, all-zip,
  is_empty, leb,
}
use yeu_xharness.Protocol.Ids.{DateTime}
use yeu_xharness.Protocol.Tool.{CapabilityGrant, CapabilityMode, EffectSet, rank, minimum}
use yeu_xharness.Policy.Scopes.{
  exact_scope_allows, path_scope_allows, intersect_exact_scopes, intersect_path_scopes,
}
use yeu_xharness.Policy.Grants.{earliest, intersect_two, intersect_onto, intersect_grants}
use yeu_xharness.Policy.Evaluate.{network_scope, external_scope, is_expired}
use yeu_xharness.Policy.Exact.{exact_scope_allows-intersect}
use yeu_xharness.Policy.Paths.{is_plain, is_plain-intersect, path_scope_allows-intersect}

abbrev pub at_least : CapabilityMode → CapabilityMode → Bool
at_least needed mode = leb (rank needed) (rank mode)

-- What a grant is asked: that it has not ended, and each kind of effect.
pub data Kind : Type 0 where
  time reads writes deletes processes networks secret_names externals : Kind

abbrev pub kinds : List Kind
kinds = time ∷ reads ∷ writes ∷ deletes ∷ processes ∷ networks ∷ secret_names ∷ externals ∷ []

-- The grant's answer for one kind, at the mode that the kind needs.
abbrev pub covers : Kind → CapabilityGrant → EffectSet → DateTime → Bool
covers time g e now = not (is_expired g.expires_at now)
covers reads g e now = all (λ s. path_scope_allows g.filesystem_read s.path) e.filesystem_read
covers writes g e now =
    all (λ s. at_least CapabilityMode.build g.mode && path_scope_allows g.filesystem_write s.path)
      e.filesystem_write
covers deletes g e now =
    all (λ s. at_least CapabilityMode.build g.mode && path_scope_allows g.filesystem_delete s.path)
      e.filesystem_delete
covers processes g e now =
    is_empty e.processes || (at_least CapabilityMode.build g.mode && g.process)
covers networks g e now = all (λ n. exact_scope_allows g.network (network_scope n)) e.network
covers secret_names g e now = all (λ s. exact_scope_allows g.secrets s.name) e.secrets
covers externals g e now =
    all
      (λ x.
        at_least CapabilityMode.operate g.mode
        && exact_scope_allows g.external_write (external_scope x))
      e.external_writes

abbrev pub permits : CapabilityGrant → EffectSet → DateTime → Bool
permits g e now = all (λ k. covers k g e now) kinds

-- No path scope of the grant is an alias of the wildcard.
abbrev pub IsPlain : CapabilityGrant → Type 0
IsPlain g =
    (all is_plain g.filesystem_read ≡ true)
    × (all is_plain g.filesystem_write ≡ true)
    × (all is_plain g.filesystem_delete ≡ true)

-- What one kind asks of the scopes on the left.
abbrev pub PlainFor : Kind → CapabilityGrant → Type 0
PlainFor reads g = all is_plain g.filesystem_read ≡ true
PlainFor writes g = all is_plain g.filesystem_write ≡ true
PlainFor deletes g = all is_plain g.filesystem_delete ≡ true
PlainFor _ g = Unit

plain_for : (k : Kind) (g : CapabilityGrant) → IsPlain g → PlainFor k g
plain_for reads g h = h.0
plain_for writes g h = h.1
plain_for deletes g h = h.2
plain_for time g h = tt
plain_for processes g h = tt
plain_for networks g h = tt
plain_for secret_names g h = tt
plain_for externals g h = tt

intersect_two-IsPlain :
    (l r : CapabilityGrant) → IsPlain l → IsPlain r → IsPlain (intersect_two l r)
unfolding intersect_two
intersect_two-IsPlain l r hl hr = (
  is_plain-intersect l.filesystem_read r.filesystem_read hl.0 hr.0,
  is_plain-intersect l.filesystem_write r.filesystem_write hl.1 hr.1,
  is_plain-intersect l.filesystem_delete r.filesystem_delete hl.2 hr.2,
)

pub at_least-minimum :
    (needed l r : CapabilityMode)
    → at_least needed (minimum l r) ≡ (at_least needed l && at_least needed r)
unfolding minimum
at_least-minimum needed l r = ground arith

expired-earliest :
    (l r : Option ℕ) (now : ℕ)
    → not (is_expired (earliest l r) now) ≡ (not (is_expired l now) && not (is_expired r now))
unfolding earliest
expired-earliest l r now = ground arith

-- Two tests of two grants, each met by its intersection.
at_mode : (a b c d x y : Bool) → x ≡ (a && b) → y ≡ (c && d) → (x && y) ≡ ((a && c) && (b && d))
at_mode a b c d x y p q = ground arith

or_and : (p a b x : Bool) → x ≡ (a && b) → (p || x) ≡ ((p || a) && (p || b))
or_and p a b x h = ground arith

and_true : (a : Bool) → a ≡ (a && true)
and_true a = ground arith

and_assoc : (a b c : Bool) → ((a && b) && c) ≡ (a && (b && c))
and_assoc a b c = ground arith

module _ (l r : CapabilityGrant) (e : EffectSet) (now : DateTime) where
  abbrev both : CapabilityMode → Bool → Bool → Bool
  both needed a b = (at_least needed l.mode && a) && (at_least needed r.mode && b)

  -- A scope test under a mode.
  gated :
      (needed : CapabilityMode) (x a b : Bool)
      → x ≡ (a && b)
      → (at_least needed (minimum l.mode r.mode) && x) ≡ both needed a b
  gated needed x a b h =
      at_mode (at_least needed l.mode) (at_least needed r.mode) a b _ x
        (at_least-minimum needed l.mode r.mode) h

  pub covers-intersect_two :
      (k : Kind)
      → PlainFor k l
      → covers k (intersect_two l r) e now ≡ (covers k l e now && covers k r e now)
  unfolding intersect_two
  covers-intersect_two time plain = expired-earliest l.expires_at r.expires_at now
  covers-intersect_two reads plain =
      all-zip
        (λ s. path_scope_allows (intersect_path_scopes l.filesystem_read r.filesystem_read) s.path)
        (λ s. path_scope_allows l.filesystem_read s.path)
        (λ s. path_scope_allows r.filesystem_read s.path) e.filesystem_read
        λ s. path_scope_allows-intersect l.filesystem_read r.filesystem_read s.path plain
  covers-intersect_two writes plain =
      all-zip
        (λ s.
          at_least CapabilityMode.build (minimum l.mode r.mode)
          && path_scope_allows (intersect_path_scopes l.filesystem_write r.filesystem_write) s.path)
        (λ s. at_least CapabilityMode.build l.mode && path_scope_allows l.filesystem_write s.path)
        (λ s. at_least CapabilityMode.build r.mode && path_scope_allows r.filesystem_write s.path)
        e.filesystem_write
        λ s.
          gated CapabilityMode.build _ (path_scope_allows l.filesystem_write s.path)
            (path_scope_allows r.filesystem_write s.path)
            (path_scope_allows-intersect l.filesystem_write r.filesystem_write s.path plain)
  covers-intersect_two deletes plain =
      all-zip
        (λ s.
          at_least CapabilityMode.build (minimum l.mode r.mode)
          && path_scope_allows (intersect_path_scopes l.filesystem_delete r.filesystem_delete)
              s.path)
        (λ s. at_least CapabilityMode.build l.mode && path_scope_allows l.filesystem_delete s.path)
        (λ s. at_least CapabilityMode.build r.mode && path_scope_allows r.filesystem_delete s.path)
        e.filesystem_delete
        λ s.
          gated CapabilityMode.build _ (path_scope_allows l.filesystem_delete s.path)
            (path_scope_allows r.filesystem_delete s.path)
            (path_scope_allows-intersect l.filesystem_delete r.filesystem_delete s.path plain)
  covers-intersect_two processes plain =
      or_and (is_empty e.processes) (at_least CapabilityMode.build l.mode && l.process)
        (at_least CapabilityMode.build r.mode && r.process) _
        (gated CapabilityMode.build (l.process && r.process) l.process r.process refl)
  covers-intersect_two networks plain =
      all-zip
        (λ n. exact_scope_allows (intersect_exact_scopes l.network r.network) (network_scope n))
        (λ n. exact_scope_allows l.network (network_scope n))
        (λ n. exact_scope_allows r.network (network_scope n)) e.network
        λ n. exact_scope_allows-intersect l.network r.network (network_scope n)
  covers-intersect_two secret_names plain =
      all-zip (λ s. exact_scope_allows (intersect_exact_scopes l.secrets r.secrets) s.name)
        (λ s. exact_scope_allows l.secrets s.name) (λ s. exact_scope_allows r.secrets s.name)
        e.secrets λ s. exact_scope_allows-intersect l.secrets r.secrets s.name
  covers-intersect_two externals plain =
      all-zip
        (λ x.
          at_least CapabilityMode.operate (minimum l.mode r.mode)
          && exact_scope_allows (intersect_exact_scopes l.external_write r.external_write)
              (external_scope x))
        (λ x.
          at_least CapabilityMode.operate l.mode
          && exact_scope_allows l.external_write (external_scope x))
        (λ x.
          at_least CapabilityMode.operate r.mode
          && exact_scope_allows r.external_write (external_scope x))
        e.external_writes
        λ x.
          gated CapabilityMode.operate _ (exact_scope_allows l.external_write (external_scope x))
            (exact_scope_allows r.external_write (external_scope x))
            (exact_scope_allows-intersect l.external_write r.external_write (external_scope x))

  pub permits-intersect_two :
      IsPlain l → permits (intersect_two l r) e now ≡ (permits l e now && permits r e now)
  permits-intersect_two plain =
      all-zip (λ k. covers k (intersect_two l r) e now) (λ k. covers k l e now)
        (λ k. covers k r e now) kinds λ k. covers-intersect_two k (plain_for k l plain)

abbrev pub AllPlain : List CapabilityGrant → Type 0
AllPlain [] = Unit
AllPlain (g ∷ gs) = IsPlain g × AllPlain gs

permits-intersect_onto :
    (g : CapabilityGrant) (gs : List CapabilityGrant) (e : EffectSet) (now : DateTime)
    → IsPlain g
    → AllPlain gs
    → permits (intersect_onto g gs) e now ≡ (permits g e now && all (λ h. permits h e now) gs)
unfolding intersect_onto
permits-intersect_onto g [] e now hg hgs = and_true (permits g e now)
permits-intersect_onto g (h ∷ gs) e now hg hgs =
    permits-intersect_onto (intersect_two g h) gs e now (intersect_two-IsPlain g h hg hgs.0) hgs.1
    ∙ rw (permits-intersect_two g h e now hg)
        (and_assoc (permits g e now) (permits h e now) (all (λ k. permits k e now) gs))

-- The effective grant permits an effect set at a time exactly when every grant of the list does, if
-- none has an alias of the wildcard among its path scopes and the list is not empty.
pub permits-intersect_grants :
    (g : CapabilityGrant) (gs : List CapabilityGrant) (e : EffectSet) (now : DateTime)
    → AllPlain (g ∷ gs)
    → permits (intersect_grants (g ∷ gs)) e now ≡ all (λ h. permits h e now) (g ∷ gs)
unfolding intersect_grants
permits-intersect_grants g gs e now plain = permits-intersect_onto g gs e now plain.0 plain.1
