-- ===== src/Zones/Kinds.antt =====
-- `system_paging_physical_alloc` for each kind of page, on well-formed lists.
use drastic.Base.{
  ℕ, ◌≤◌, ◌≡◌, refl, List, length, Option, none, some, Result, ok, stop, ◌>>=◌, arith,
}
use drastic.Zones.{
  Pointer, Links, Node, Paging, PageKind, normal, page_16mb, page_4gb, rounds, alloc_along,
  alloc_16mb, physical_alloc,
}
use drastic.Zones.Chain.{Chain}
use drastic.Zones.Alloc.{
  FirstGives, itself, alloc_along-FirstGives, or_else, FirstGives-append, FirstGives-kept,
}
use drastic.Zones.Valid.{Layout, IsWellFormed, candidates}

abbrev pub keep_in : Paging → List Node → Paging
keep_in paging nodes = record paging { nodes = nodes }

as_or_else :
    (paging : Paging) (r : Result (Option ℕ × List Node))
    → (r >>= λ (address, nodes). elim address [
      | some a ↦ ok (some a, keep_in paging nodes)
      | none ↦ alloc_16mb (keep_in paging nodes)
    ])
      ≡ (r >>= or_else (keep_in paging) (λ nodes. alloc_16mb (keep_in paging nodes)))
as_or_else paging (stop s) = refl
as_or_else paging (ok (none, nodes)) = refl
as_or_else paging (ok (some a, nodes)) = refl

module _ (paging : Paging) (l : Layout) (f : IsWellFormed paging l) where
  along :
      (follow : Links → Pointer) (p : Pointer) (is : List ℕ)
      → Chain follow paging.nodes p is
      → length is ≤ length paging.nodes
      → FirstGives itself paging.nodes is (alloc_along (rounds paging.nodes) follow paging.nodes p)
  along follow p is c short =
      alloc_along-FirstGives follow paging.nodes f.no_loop f.valid is (rounds paging.nodes) p c
        (omega arith)

  alloc_16mb-FirstGives : FirstGives (keep_in paging) paging.nodes l.zone_16mb (alloc_16mb paging)
  alloc_16mb-FirstGives =
      FirstGives-kept (keep_in paging) paging.nodes _ l.zone_16mb
        (along (λ links. links.next_16mb) paging.first_16mb l.zone_16mb f.chain_16mb f.short_16mb)

  pub physical_alloc-FirstGives :
      (kind : PageKind)
      → FirstGives (keep_in paging) paging.nodes (candidates kind l) (physical_alloc kind paging)
  unfolding physical_alloc
  physical_alloc-FirstGives normal = rw (as_or_else paging) (
      FirstGives-append (keep_in paging) (λ nodes. alloc_16mb (keep_in paging nodes)) paging.nodes _
        l.non_16mb l.zone_16mb
        (along (λ links. links.next) paging.first_non_16mb l.non_16mb f.chain_non_16mb
          f.short_non_16mb)
        alloc_16mb-FirstGives)
  physical_alloc-FirstGives page_16mb = alloc_16mb-FirstGives
  physical_alloc-FirstGives page_4gb =
      FirstGives-kept (keep_in paging) paging.nodes _ l.zone_4gb
        (along (λ links. links.next_4gb) paging.first_4gb l.zone_4gb f.chain_4gb f.short_4gb)
