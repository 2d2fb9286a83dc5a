-- ===== src/Store/Memory/Naming.antt =====
-- The keys of the in-memory map (`getKey`, `getEventKey`).
use Prim.Native.Char.{Char}
use Prim.Native.String.{[], ◌∷◌}
use Prim.Native.String.append
use canary_gate.Prelude.{String, ◌++◌, ◌≡◌, ◌≢◌, sym, ap, ◌∙◌, false, arith, eq_iff}
use canary_gate.Prelude.Text.{Lacks, append_cons_inj}
use canary_gate.Service.{hook_event}
use canary_gate.Store.Defs.{StoreKey}
use canary_gate.Store.Contract.{canary_eq}
use canary_gate.Store.Memory.{get_key, get_event_key}

abbrev pub colon : Char
colon = ":"

-- The namespace and the name hold no colon, which no Kubernetes name does.
abbrev pub HasPlainNames : StoreKey → Type 0
HasPlainNames k = Lacks colon k.namespace × Lacks colon k.name

-- A key with plain names whose type is not the one that events are stored under.
abbrev pub IsGate : StoreKey → Type 0
IsGate k = HasPlainNames k × (k.type ≢ hook_event)

pub colon-append : (t : String) → ":" ++ t ≡ colon ∷ t
colon-append t = append.cons colon [] t ∙ ap (λ u. colon ∷ u) (append.nil t)

joined_inj :
    (a b c a' b' c' : String)
    → Lacks colon a × Lacks colon b
    → Lacks colon a' × Lacks colon b'
    → a ++ (":" ++ (b ++ (":" ++ c))) ≡ a' ++ (":" ++ (b' ++ (":" ++ c')))
    → (a ≡ a') × (b ≡ b') × (c ≡ c')
joined_inj a b c a' b' c' h h' e =
    let outer =
      append_cons_inj colon a a' (b ++ (colon ∷ c)) (b' ++ (colon ∷ c')) h.0 h'.0
        (simp colon-append at e) in
    let inner = append_cons_inj colon b b' c c' h.1 h'.1 outer.1 in (outer.0, inner.0, inner.1)

-- Two keys with plain names have the same map key only if they are equal.
pub get_key_inj :
    (k j : StoreKey) → HasPlainNames k → HasPlainNames j → get_key k ≡ get_key j → k ≡ j
unfolding get_key
get_key_inj k j hk hj e =
    let parts =
      joined_inj k.namespace k.name k.type j.namespace j.name j.type (hk.0, hk.1) (hj.0, hj.1) e in
    λ i. record { namespace = parts.0 i; name = parts.1 i; type = parts.2 i }

-- The events of different canaries have different keys.
pub get_event_key-other :
    (k j : StoreKey)
    → HasPlainNames k
    → HasPlainNames j
    → canary_eq k j ≡ false
    → get_event_key k ≢ get_event_key j
unfolding get_event_key
get_event_key-other k j hk hj aside e =
    let parts =
      joined_inj k.namespace k.name hook_event j.namespace j.name hook_event (hk.0, hk.1)
        (hj.0, hj.1) e in
    let same = parts.0 in
    let named = parts.1 in ground (arith, eq_iff k.namespace j.namespace, eq_iff k.name j.name)

pub get_event_key-ne : (k j : StoreKey) → HasPlainNames k → IsGate j → get_event_key k ≢ get_key j
unfolding get_key get_event_key
get_event_key-ne k j hk hj e =
    let parts =
      joined_inj k.namespace k.name hook_event j.namespace j.name j.type (hk.0, hk.1)
        (hj.0.0, hj.0.1) e in
    hj.1 (sym parts.2)
