-- ===== src/Chain/Hidden.antt =====
-- checkHiddenCommits: the verdict over the commits of the pack.
use git_proxy_go.Base.{
  ◌≡◌, refl, false, not, ◌||◌, List, [], ◌∷◌, Str, arith, all, member, is_empty,
}
use git_proxy_go.Model.{Step}
use git_proxy_go.Chain.Action.{log, set_error, set_content}
use git_proxy_go.Chain.Inspect.{select, hidden_verdict}

select_unreferenced :
    (introduced pack : List Str)
    → is_empty (select false introduced pack) ≡ all (member introduced) pack
unfolding select
select_unreferenced introduced [] = refl
select_unreferenced introduced (sha ∷ rest) = ground (arith, select_unreferenced introduced rest)

-- The step is left with an error exactly when it had one or some commit of the pack is not among
-- the introduced commits.
pub hidden_verdict_error :
    (introduced pack : List Str) (step : Step)
    → (hidden_verdict introduced pack step).error
      ≡ (step.error || not (all (member introduced) pack))
unfolding hidden_verdict log set_error set_content
hidden_verdict_error introduced pack step = ground (arith, select_unreferenced introduced pack)
