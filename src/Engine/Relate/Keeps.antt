-- ===== src/Engine/Relate/Keeps.antt =====
-- The transaction that the relation pass writes in keeps what the insertion of an edge keeps.
use pg_mnestic.Prelude.{ℕ, List, [], ◌∷◌, get_elem?, inl, inr, Option-cases}
use pg_mnestic.Text.{Text}
use pg_mnestic.Core.Types.{relation_str, RelationEdge}
use pg_mnestic.Store.Db.{Db}
use pg_mnestic.Store.Preserve.{Keeps, Changes, >>=-Keeps, return-Keeps}
use pg_mnestic.Engine.Relate.{write_edges}

module _ (P : Db → Type 0) (tenant_id : ℕ) (changes : Changes P tenant_id) (actor_id : Text) where
  pub write_edges-Keeps :
      (id : ℕ) (neighbors : List (ℕ × Text)) (es : List RelationEdge)
      → Keeps P (write_edges tenant_id actor_id id neighbors es)
  unfolding write_edges
  write_edges-Keeps id neighbors [] = return-Keeps P tt
  write_edges-Keeps id neighbors (e ∷ es) = elim (Option-cases (get_elem? neighbors e.index)) [
    | inl g ↦ rw (g, write_edges) (write_edges-Keeps id neighbors es)
    | inr (x, g) ↦
        rw (g, write_edges)
          (>>=-Keeps P _ _ (changes.on_relation actor_id id x.0 (relation_str e.relation))
            λ _. write_edges-Keeps id neighbors es)
  ]
