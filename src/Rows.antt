-- ===== src/Rows.antt =====
-- A table as the list of its rows, with a column of texts as its key.
pub mod Laws
use depsera.Prelude.{String, Bool, not, List, [], ◌∷◌, keep, any, ◌==◌, ◌≡◌, false, if◌then◌else◌}

module _ {ℓ} {A : Type ℓ} (key : A → String) where
  abbrev pub has_key : String → List A → Bool
  has_key k rows = any (λ r. key r == k) rows

  abbrev pub UniqueKeys : List A → Type 0
  UniqueKeys [] = Unit
  UniqueKeys (r ∷ rows) = (has_key (key r) rows ≡ false) × UniqueKeys rows

  -- `UPDATE ... WHERE key = ?`
  unfoldable pub update : String → (A → A) → List A → List A
  update k f [] = []
  update k f (r ∷ rows) = let rest = update k f rows in if key r == k then f r ∷ rest else r ∷ rest

  -- `DELETE ... WHERE key = ?`
  abbrev pub remove : String → List A → List A
  remove k rows = keep (λ r. not (key r == k)) rows
