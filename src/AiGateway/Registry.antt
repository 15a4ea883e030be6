-- ===== src/AiGateway/Registry.antt =====
-- The registry of providers: `AIProviderRegistry`.
use text.Mathlib.Text.{◌==◌ as str_eq}
use text.Mathlib.TextEquality.{eq_iff}
use customers_manager_hub.Prelude.{
  String, ◌≡◌, refl, ◌∙◌, Bool, false, Option, none, some, List, [], ◌∷◌, ◌++◌, any, find, arith,
  if◌then◌else◌, Bool-cases, Option-cases, inl, inr,
}
use customers_manager_hub.Prelude.Result.{Result, ok, err, err≢ok, ok_unique}
use customers_manager_hub.Prelude.Table.Laws.{find-append_none, find-append_some}
use customers_manager_hub.AiGateway.State.{Adapter}

pub data RegistryError : Type 0 where
  key_blank already_registered : RegistryError

abbrev pub adapter_has_key : String → Adapter → Bool
adapter_has_key key a = str_eq a.key key

module _ (strip casefold : String → String) where
  -- `AIProviderRegistry.get`
  unfoldable pub get : List Adapter → String → Option Adapter
  get adapters key = find (adapter_has_key (casefold key)) adapters

  -- `AIProviderRegistry.register`; the adapter stands under its stripped and casefolded key.
  unfoldable pub register : Adapter → List Adapter → Result RegistryError (List Adapter)
  register adapter adapters =
      let key = casefold (strip adapter.key) in
      if str_eq key ""
      then err key_blank
      else if any (adapter_has_key key) adapters
      then err already_registered
      else ok (adapters ++ record adapter { key = key } ∷ [])

  -- `AIProviderRegistry.__init__`
  unfoldable pub registry_of : List Adapter → List Adapter → Result RegistryError (List Adapter)
  unfolding register
  registry_of [] adapters = ok adapters
  registry_of (a ∷ rest) adapters = elim (register a adapters) [
    | ok next ↦ registry_of rest next
    | err e ↦ err e
  ]

  none_of_any :
      (key : String) (adapters : List Adapter)
      → any (adapter_has_key key) adapters ≡ false
      → find (adapter_has_key key) adapters ≡ none
  unfolding any find
  none_of_any key [] h = refl
  none_of_any key (a ∷ rest) h = ground (arith, none_of_any key rest)

  find_last :
      (key : String) (a : Adapter) (adapters : List Adapter) (k : String)
      → a.key ≡ key
      → find (adapter_has_key key) adapters ≡ none
      → find (adapter_has_key k) (adapters ++ a ∷ [])
        ≡ (if str_eq key k then some a else find (adapter_has_key k) adapters)
  unfolding find
  find_last key a adapters k e free = elim (Bool-cases (str_eq key k)) [
    | inl same ↦
        let p : a.key ≡ k = e ∙ (eq_iff key k).0 same in
        let itself = (eq_iff a.key k).1 p in
        let free' : find (adapter_has_key k) adapters ≡ none = rw (← (eq_iff key k).0 same) free in
        rw (same, find-append_none (adapter_has_key k) adapters (a ∷ []) free', itself) refl
    | inr other ↦
        let differs : str_eq a.key k ≡ false = rw e other in
        elim (Option-cases (find (adapter_has_key k) adapters)) [
          | inl n ↦
              rw (other, find-append_none (adapter_has_key k) adapters (a ∷ []) n, n, differs) refl
          | inr (b, f) ↦
              rw (other, find-append_some (adapter_has_key k) adapters (a ∷ []) b f, f) refl
        ]
  ]

  -- Where a provider is registered, its key finds the provider, and every other key finds what it
  -- found before.
  pub get-register :
      (adapter : Adapter) (adapters next : List Adapter) (k : String)
      → register adapter adapters ≡ ok next
      → get next k ≡ (
          if str_eq (casefold (strip adapter.key)) (casefold k)
          then some (record adapter { key = casefold (strip adapter.key) })
          else get adapters k)
  unfolding register get
  get-register adapter adapters next k e =
      let key = casefold (strip adapter.key) in
      let a : Adapter = record adapter { key = key } in
      elim (Bool-cases (str_eq key "")) [
        | inl blank ↦ absurd (err≢ok (rw (blank, register) at e))
        | inr filled ↦ elim (Bool-cases (any (adapter_has_key key) adapters)) [
          | inl taken ↦ absurd (err≢ok (rw (filled, taken, register) at e))
          | inr free ↦
              rw (← ok_unique {a = adapters ++ a ∷ []} (rw (filled, free, register) refl) e)
                (find_last key a adapters (casefold k) refl (none_of_any key adapters free))
        ]
      ]
