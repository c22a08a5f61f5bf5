-- ===== src/Settlement/Settler/Totals.antt =====
-- src/internal/settlement/settler.go: the running total of the settled USD.
use openmodel_gateway.Prelude.{
  ℕ, ◌≡◌, refl, Bool, true, false, ◌&&◌, List, String, Dict, some, ◌==◌, ◌/=◌, nat_eq, string_eq,
  if◌then◌else◌, if-holds, eq_refl, arith,
}
use openmodel_gateway.Settlement.Floats.{BigFloat}
use openmodel_gateway.Settlement.Settler.{SettledTotalFile}
use openmodel_gateway.Settlement.Settler.World.{SettlementContract, Codec, World, succeeds, later}
use openmodel_gateway.Settlement.Settler.Resume.{add_settled_total, read_settled_total}

module _ (b : BigFloat) (c : SettlementContract) (codec : Codec b.F) where
  counted_add_settled_total :
      (settled : Dict String String) (created : ℕ) (w : World b c codec)
      → (created /= 0) ≡ true
      → ((read_settled_total b c codec w).last_wal == created) ≡ true
      → add_settled_total b c codec settled created w ≡ w
  unfolding add_settled_total
  counted_add_settled_total settled created w real counted =
      if-holds (λ v. v ≡ w) (created /= 0 && (read_settled_total b c codec w).last_wal == created)
        (λ again. refl) (λ first. ground arith)

  written_counted :
      (f : SettledTotalFile) (w : World b c codec) (rest : List Bool)
      → succeeds b c codec w.writes ≡ true
      → (f.total_usd == "") ≡ false
      → ((read_settled_total b c codec (record w {
        total = if succeeds b c codec w.writes then some f else w.total;
        writes = rest;
      })).last_wal
          == f.last_wal)
        ≡ true
  unfolding read_settled_total
  written_counted f w rest ok text =
      if-holds
        (λ t.
          ((read_settled_total b c codec (record w { total = t; writes = rest })).last_wal
            == f.last_wal)
          ≡ true)
        (succeeds b c codec w.writes)
        (λ done.
          if-holds {A = SettledTotalFile} (λ g. (g.last_wal == f.last_wal) ≡ true)
            (f.total_usd == "") (λ blank. ground arith) (λ kept. eq_refl f.last_wal))
        (λ failed. ground arith)

  add_settled_total_counted :
      (settled : Dict String String) (created : ℕ) (w : World b c codec)
      → succeeds b c codec w.writes ≡ true
      → ((f : b.F) → (codec.text f == "") ≡ false)
      → ((read_settled_total b c codec (add_settled_total b c codec settled created w)).last_wal
          == created)
        ≡ true
  unfolding add_settled_total
  add_settled_total_counted settled created w ok written =
      if-holds (λ v. ((read_settled_total b c codec v).last_wal == created) ≡ true)
        (created /= 0 && (read_settled_total b c codec w).last_wal == created)
        (λ again. ground arith)
        (λ first. written_counted _ w (later b c codec w.writes) ok (written _))

  -- A plan's settled USD counts once: to add it again changes nothing, if the write of the total
  -- succeeded and a number is never written as the empty text.
  pub add_settled_total_once :
      (settled : Dict String String) (created : ℕ) (w : World b c codec)
      → (created /= 0) ≡ true
      → succeeds b c codec w.writes ≡ true
      → ((f : b.F) → (codec.text f == "") ≡ false)
      → add_settled_total b c codec settled created (add_settled_total b c codec settled created w)
        ≡ add_settled_total b c codec settled created w
  add_settled_total_once settled created w real ok written =
      counted_add_settled_total settled created (add_settled_total b c codec settled created w) real
        (add_settled_total_counted settled created w ok written)
