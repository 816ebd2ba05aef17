-- ===== src/Dap/BreakpointIds/Replacement.antt =====
-- What a replacement of breakpoints does to the identities.
use ferretd.Prelude.{
  ℕ, ◌≤◌, ◌≡◌, ◌≢◌, refl, ◌∙◌, String, some, List, [], ◌∷◌, lookup, nat_key, lookup-insert,
  lookup-delete, arith, length, Outcome, done, panic, Ensures, Ensures-both, Ensures-mono, All,
}
use ferretd.Dap.BreakpointIds.{
  BreakpointIds, BreakpointKey, NativePosition, breakpoint_key, identify, bind, bind_all, unbind,
  replace, id,
}
use ferretd.Dap.BreakpointIds.Identity.{
  Inv, identify_lem, identify-keeps, identify-rest, bind-Inv, unbind-Inv,
}

abbrev pub key_of : String → NativePosition → BreakpointKey
key_of source p = record { source_name = source; position = p }

bind_all-Inv :
    (source : String) (ps : List NativePosition) (ns : List ℕ) (b : BreakpointIds)
    → length ns ≤ length ps
    → Inv b
    → Ensures Inv (bind_all source ps ns b)
unfolding bind_all
bind_all-Inv source ps [] b h v = v
bind_all-Inv source [] (n ∷ ns) b h v = absurd (omega arith)
bind_all-Inv source (p ∷ ps) (n ∷ ns) b h v =
    bind_all-Inv source ps ns (bind source p n b) (omega arith) (bind-Inv source p n b v)

-- With a request for each result, a replacement does not panic, and keeps identities unique.
pub replace-Inv :
    (source : String) (ps : List NativePosition) (ns : List ℕ) (b : BreakpointIds)
    → length ns ≤ length ps
    → Inv b
    → Ensures Inv (replace source ps ns b)
unfolding replace
replace-Inv source ps ns b h v = bind_all-Inv source ps ns (unbind b) h (unbind-Inv b v)

bind_all-keeps :
    (source : String) (ps : List NativePosition) (ns : List ℕ) (b : BreakpointIds)
    (k : BreakpointKey) (n : ℕ)
    → length ns ≤ length ps
    → Inv b
    → lookup k b.stable ≡ some n
    → Ensures (λ d. lookup k d.stable ≡ some n) (bind_all source ps ns b)
unfolding bind_all
bind_all-keeps source ps [] b k n h v e = e
bind_all-keeps source [] (m ∷ ns) b k n h v e = absurd (omega arith)
bind_all-keeps source (p ∷ ps) (m ∷ ns) b k n h v e =
    bind_all-keeps source ps ns (bind source p m b) k n (omega arith) (bind-Inv source p m b v)
      (unfold bind in identify-keeps b (key_of source p) k n v e)

-- The debugger's identifier is not among the results.
abbrev pub Absent : ℕ → List ℕ → Type 0
Absent m = All (λ n. n ≢ m)

bind-rest :
    (source : String) (p : NativePosition) (n : ℕ) (b : BreakpointIds) (m : ℕ)
    → n ≢ m
    → (lookup m (bind source p n b).active ≡ lookup m b.active)
      × (lookup m (bind source p n b).retired ≡ lookup m b.retired)
unfolding bind
bind-rest source p n b m ne =
    let b' = (identify b (key_of source p)).0 in
    let i = (identify b (key_of source p)).1 in
    let same = identify-rest b (key_of source p) in
    (
      ground (arith, same, lookup-insert n m i b'.active),
      ground (arith, same, lookup-delete n m b'.retired),
    )

bind_all-rest :
    (source : String) (ps : List NativePosition) (ns : List ℕ) (b : BreakpointIds) (m : ℕ)
    → length ns ≤ length ps
    → Absent m ns
    → Ensures
        (λ d. (lookup m d.active ≡ lookup m b.active) × (lookup m d.retired ≡ lookup m b.retired))
        (bind_all source ps ns b)
unfolding bind_all
bind_all-rest source ps [] b m h a = (refl, refl)
bind_all-rest source [] (n ∷ ns) b m h a = absurd (omega arith)
bind_all-rest source (p ∷ ps) (n ∷ ns) b m h a =
    let next = bind source p n b in
    Ensures-mono
      (λ d.
        (lookup m d.active ≡ lookup m next.active) × (lookup m d.retired ≡ lookup m next.retired))
      (λ d. (lookup m d.active ≡ lookup m b.active) × (lookup m d.retired ≡ lookup m b.retired))
      (bind_all source ps ns next)
      (λ d e. (e.0 ∙ (bind-rest source p n b m a.0).0, e.1 ∙ (bind-rest source p n b m a.0).1))
      (bind_all-rest source ps ns next m (omega arith) a.1)

-- The results name distinct breakpoints.
abbrev pub Distinct : List ℕ → Type 0
Distinct [] = Unit
Distinct (n ∷ ns) = Absent n ns × Distinct ns

-- Each result has the identity of its requested position.
abbrev pub Identified : String → List NativePosition → List ℕ → BreakpointIds → Type 0
Identified source ps [] d = Unit
Identified source [] (n ∷ ns) d = ⊥
Identified source (p ∷ ps) (n ∷ ns) d =
    ((s : ℕ) × (lookup (key_of source p) d.stable ≡ some s) × (id d n ≡ s) × (1 ≤ s))
    × Identified source ps ns d

id_of_active : (d : BreakpointIds) (n s : ℕ) → lookup n d.active ≡ some s → 1 ≤ s → id d n ≡ s
unfolding id
id_of_active d n s e h = ground arith

bind_lem :
    (source : String) (p : NativePosition) (n : ℕ) (b : BreakpointIds)
    → Inv b
    → (s : ℕ) × (lookup (key_of source p) (bind source p n b).stable ≡ some s)
      × (lookup n (bind source p n b).active ≡ some s)
      × (1 ≤ s)
unfolding bind
bind_lem source p n b v =
    let i = identify_lem b (key_of source p) v in
    let b' = (identify b (key_of source p)).0 in
    let s = (identify b (key_of source p)).1 in
    (s, i.0, ground (arith, lookup-insert n n s b'.active), i.1)

bind_all-Identified :
    (source : String) (ps : List NativePosition) (ns : List ℕ) (b : BreakpointIds)
    → length ns ≤ length ps
    → Inv b
    → Distinct ns
    → Ensures (Identified source ps ns) (bind_all source ps ns b)
unfolding bind_all
bind_all-Identified source ps [] b h v t = tt
bind_all-Identified source [] (n ∷ ns) b h v t = absurd (omega arith)
bind_all-Identified source (p ∷ ps) (n ∷ ns) b h v t =
    let next = bind source p n b in
    let m = bind_all source ps ns next in
    let v' = bind-Inv source p n b v in
    let (s, known, given, pos) = bind_lem source p n b v in
    Ensures-mono
      (λ d.
        (lookup (key_of source p) d.stable ≡ some s)
        × (((lookup n d.active ≡ lookup n next.active)
              × (lookup n d.retired ≡ lookup n next.retired))
            × Identified source ps ns d))
      (Identified source (p ∷ ps) (n ∷ ns)) m
      (λ d e. ((s, e.0, id_of_active d n s (e.1.0.0 ∙ given) pos, pos), e.1.1))
      (Ensures-both _ _ m
        (bind_all-keeps source ps ns next (key_of source p) s (omega arith) v' known)
        (Ensures-both _ _ m (bind_all-rest source ps ns next n (omega arith) t.0)
          (bind_all-Identified source ps ns next (omega arith) v' t.1)))

-- The identities that were given before are the positions' still.
abbrev pub KeptIdentities : BreakpointIds → BreakpointIds → Type 0
KeptIdentities b d =
    (k : BreakpointKey) (n : ℕ) → lookup k b.stable ≡ some n → lookup k d.stable ≡ some n

kept_at :
    (b : BreakpointIds) (m : Outcome BreakpointIds)
    → Ensures (λ d. Unit) m
    → ((k : BreakpointKey) (n : ℕ)
        → lookup k b.stable ≡ some n
        → Ensures (λ d. lookup k d.stable ≡ some n) m)
    → Ensures (KeptIdentities b) m
kept_at b (done d) t h = h
kept_at b panic t h = t

-- In a state that satisfies the invariant, when the results are distinct and no more than the requests: a
-- replacement does not panic, every result is reported under the identity of its requested position,
-- whether the position had one before or not, and positions that had one before keep it.
pub replace-Identified :
    (source : String) (ps : List NativePosition) (ns : List ℕ) (b : BreakpointIds)
    → length ns ≤ length ps
    → Inv b
    → Distinct ns
    → Ensures (λ d. Identified source ps ns d × KeptIdentities b d) (replace source ps ns b)
unfolding replace unbind
replace-Identified source ps ns b h v t =
    let v' = unbind-Inv b v in
    let m = bind_all source ps ns (unbind b) in
    let named = bind_all-Identified source ps ns (unbind b) h v' t in
    Ensures-both (Identified source ps ns) (KeptIdentities b) m named (
      kept_at b m (Ensures-mono (Identified source ps ns) (λ d. Unit) m (λ d i. tt) named)
        (λ k n e. bind_all-keeps source ps ns (unbind b) k n h v' e))

same_id :
    (b d : BreakpointIds) (m : ℕ)
    → (lookup m d.active ≡ lookup m b.active) × (lookup m d.retired ≡ lookup m b.retired)
    → id d m ≡ id b m
unfolding id
same_id b d m h = rw (h.0, h.1)
