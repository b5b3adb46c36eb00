-- ===== src/Executor/Meaning/Accepted.antt =====
-- Which queries crates/core/src/executor.rs translates, and with which error it refuses the others.
use logdive.Query.Ast.{
  AndGroup, Clause, Duration, QueryNode, clauses, compare, contains, group, groups, last_duration,
  no_clauses, no_groups, since_datetime,
}
use logdive.Prelude.{inl, inr, none, some, sym, ◌∙◌, ◌≡◌, ◌⊎◌}
use logdive.Bytes.{Bytes}
use logdive.Executor.Chrono.{Chrono}
use logdive.Prelude.Result.{err, ok}
use logdive.Executor.Failure.{Failure, invalid_datetime, panic}
use logdive.Executor.Sql.{cutoff_seconds}
use logdive.Executor.Translate.{parse_datetime}

module _ (chrono : Chrono) (now : chrono.DateTime) where
  abbrev pub HasRange : Duration → Type 0
  HasRange d = (delta : chrono.Delta) × (chrono.seconds (cutoff_seconds d) ≡ some delta)

  abbrev pub HasNoRange : Duration → Failure → Type 0
  HasNoRange d e = (e ≡ panic) × (chrono.seconds (cutoff_seconds d) ≡ none)

  abbrev pub IsDate : Bytes → Type 0
  IsDate s = (t : chrono.DateTime) × (parse_datetime chrono s ≡ ok t)

  abbrev pub IsNoDate : Bytes → Failure → Type 0
  IsNoDate s e = (e ≡ invalid_datetime s) × (parse_datetime chrono s ≡ err e)

  -- Every duration is in chrono's range, and every date is one.
  abbrev mutual
    pub IsAccepted : Clause → Type 0
    IsAccepted (compare _ _ _) = Unit
    IsAccepted (contains _ _) = Unit
    IsAccepted (last_duration d) = HasRange d
    IsAccepted (since_datetime s) = IsDate s
    IsAccepted (group node) = IsAcceptedQuery node

    pub IsAcceptedGroup : AndGroup → Type 0
    IsAcceptedGroup no_clauses = Unit
    IsAcceptedGroup (clauses c cs) = IsAccepted c × IsAcceptedGroup cs

    pub IsAcceptedQuery : QueryNode → Type 0
    IsAcceptedQuery no_groups = Unit
    IsAcceptedQuery (groups g gs) = IsAcceptedGroup g × IsAcceptedQuery gs

  -- The first clause that is not accepted fails with this error.
  abbrev mutual
    pub FailsWith : Failure → Clause → Type 0
    FailsWith e (compare _ _ _) = ⊥
    FailsWith e (contains _ _) = ⊥
    FailsWith e (last_duration d) = HasNoRange d e
    FailsWith e (since_datetime s) = IsNoDate s e
    FailsWith e (group node) = FailsWithQuery e node

    pub FailsWithGroup : Failure → AndGroup → Type 0
    FailsWithGroup e no_clauses = ⊥
    FailsWithGroup e (clauses c cs) = FailsWith e c ⊎ (IsAccepted c × FailsWithGroup e cs)

    pub FailsWithQuery : Failure → QueryNode → Type 0
    FailsWithQuery e no_groups = ⊥
    FailsWithQuery e (groups g gs) = FailsWithGroup e g ⊎ (IsAcceptedGroup g × FailsWithQuery e gs)

  mutual
    refused : (e : Failure) (c : Clause) → FailsWith e c → IsAccepted c → ⊥
    refused e (compare _ _ _) f a = f
    refused e (contains _ _) f a = f
    refused e (last_duration d) (_, f) (delta, a) = cc (f, a)
    refused e (since_datetime s) (_, f) (t, a) = cc (f, a)
    refused e (group node) f a = refused_query e node f a

    refused_group : (e : Failure) (g : AndGroup) → FailsWithGroup e g → IsAcceptedGroup g → ⊥
    refused_group e no_clauses f a = f
    refused_group e (clauses c cs) (inl f) (a, _) = refused e c f a
    refused_group e (clauses c cs) (inr (_, f)) (_, a) = refused_group e cs f a

    pub refused_query : (e : Failure) (q : QueryNode) → FailsWithQuery e q → IsAcceptedQuery q → ⊥
    refused_query e no_groups f a = f
    refused_query e (groups g gs) (inl f) (a, _) = refused_group e g f a
    refused_query e (groups g gs) (inr (_, f)) (_, a) = refused_query e gs f a

  mutual
    same_error : (e e' : Failure) (c : Clause) → FailsWith e c → FailsWith e' c → e ≡ e'
    same_error e e' (compare _ _ _) f k = absurd f
    same_error e e' (contains _ _) f k = absurd f
    same_error e e' (last_duration d) (f, _) (k, _) = f ∙ sym k
    same_error e e' (since_datetime s) (f, _) (k, _) = f ∙ sym k
    same_error e e' (group node) f k = same_error_query e e' node f k

    same_error_group :
        (e e' : Failure) (g : AndGroup) → FailsWithGroup e g → FailsWithGroup e' g → e ≡ e'
    same_error_group e e' no_clauses f k = absurd f
    same_error_group e e' (clauses c cs) (inl f) (inl k) = same_error e e' c f k
    same_error_group e e' (clauses c cs) (inl f) (inr (a, _)) = absurd (refused e c f a)
    same_error_group e e' (clauses c cs) (inr (a, _)) (inl k) = absurd (refused e' c k a)
    same_error_group e e' (clauses c cs) (inr (_, f)) (inr (_, k)) = same_error_group e e' cs f k

    pub same_error_query :
        (e e' : Failure) (q : QueryNode) → FailsWithQuery e q → FailsWithQuery e' q → e ≡ e'
    same_error_query e e' no_groups f k = absurd f
    same_error_query e e' (groups g gs) (inl f) (inl k) = same_error_group e e' g f k
    same_error_query e e' (groups g gs) (inl f) (inr (a, _)) = absurd (refused_group e g f a)
    same_error_query e e' (groups g gs) (inr (a, _)) (inl k) = absurd (refused_group e' g k a)
    same_error_query e e' (groups g gs) (inr (_, f)) (inr (_, k)) = same_error_query e e' gs f k
