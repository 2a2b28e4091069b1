-- ===== src/Http/Drain.antt =====
-- How the TLS write queue of src/http/http.c is emptied.
use libytdl.Base.{
  ℕ, ◌≡◌, ◌≢◌, refl, sym, ap, subst, ◌∙◌, inl, inr, true, List, [], ◌∷◌, ◌++◌, reverse,
  append_assoc, append-nil, length, length-reverse, Bytes, ◌==◌, if◌then◌else◌, ge→ltb, All, arith,
  Bool-cases,
}
use mathlib.Core.List.{reverse-cons}
use libytdl.Http.{
  Client, Job, Status, e_ok, Openssl, write, tls_poll_cb, writable, skip_empty, write_first,
  write_job, write_phase, finish, quiet,
}

-- One call of `ytdl_http_client_write` for each job, in order, on a TLS session.
pub writes : List Job → Client → Client
unfolding write
writes [] c = c
writes (job ∷ rest) c = writes rest (write 0 job.base job.cb c)

module _ (ssl : Openssl) where
  -- One poll for each result of `SSL_write`.
  pub polls : List ℕ → Client → Client
  unfolding tls_poll_cb
  polls [] c = c
  polls (err ∷ errs) c = polls errs (tls_poll_cb ssl (writable err) c)

  -- The texts of those jobs whose `SSL_write` did not fail.
  abbrev pub taken : List ℕ → List Job → List Bytes
  taken [] jobs = []
  taken (err ∷ errs) [] = []
  taken (err ∷ errs) (job ∷ rest) =
      let others = taken errs rest in if err == 0 then job.base ∷ others else others

  abbrev pub told : List ℕ → List Job → List (ℕ × Status)
  told [] jobs = []
  told (err ∷ errs) [] = []
  told (err ∷ errs) (job ∷ rest) = (job.cb, e_ok err) ∷ told errs rest

  abbrev pub IsSent : Client → List ℕ → List Job → Client → Type 0
  IsSent c errs jobs d =
      (d.accepted ≡ c.accepted ++ taken errs jobs)
      × (d.reports ≡ c.reports ++ told errs jobs)
      × (d.bufs ≡ [])

  sent_one : ℕ → Job → List Job → Client → Client
  sent_one err job rest c = record c {
    accepted = if err == 0 then c.accepted ++ job.base ∷ [] else c.accepted;
    reports = c.reports ++ (job.cb, e_ok err) ∷ [];
    bufs = rest;
  }

  skip_none :
      (job : Job) (rest : List Job) → length job.base ≢ 0 → skip_empty ssl (job ∷ rest) ≡ job ∷ rest
  unfolding skip_empty
  skip_none job rest n = ground arith

  write_job_lem :
      (err : ℕ) (job : Job) (rest : List Job) (c : Client)
      → finish ssl (write_job ssl err job rest (quiet c)) ≡ sent_one err job rest c
  unfolding write_job sent_one
  write_job_lem err job rest c =
      rw (ge→ltb err 0 (omega arith))
        (elim (Bool-cases (err == 0)) [ inl e ↦ rw e refl | inr e ↦ rw e refl ])

  poll_first :
      (err : ℕ) (job : Job) (rest : List Job) (c : Client)
      → c.bufs ≡ job ∷ rest
      → length job.base ≢ 0
      → tls_poll_cb ssl (writable err) c ≡ sent_one err job rest c
  unfolding tls_poll_cb write_phase write_first
  poll_first err job rest c e n =
      subst (λ q. finish ssl (write_first ssl err q (quiet c)) ≡ sent_one err job rest c)
        (sym (ap (skip_empty ssl) e ∙ skip_none job rest n)) (write_job_lem err job rest c)

  taken_head :
      (err : ℕ) (job : Job) (before rest : List Bytes)
      → (if err == 0 then before ++ job.base ∷ [] else before) ++ rest
        ≡ before ++ (if err == 0 then job.base ∷ rest else rest)
  taken_head err job before rest = elim (Bool-cases (err == 0)) [
    | inl e ↦ rw e (append_assoc before (job.base ∷ []) rest)
    | inr e ↦ rw e refl
  ]

  polls-IsSent :
      (errs : List ℕ) (jobs : List Job) (c : Client)
      → length errs ≡ length jobs
      → All (λ job. length job.base ≢ 0) jobs
      → c.bufs ≡ jobs
      → IsSent c errs jobs (polls errs c)
  unfolding polls sent_one
  polls-IsSent [] [] c l n e = (sym (append-nil _), sym (append-nil _), e)
  polls-IsSent [] (job ∷ rest) c l n e = absurd (omega arith)
  polls-IsSent (err ∷ errs) [] c l n e = absurd (omega arith)
  polls-IsSent (err ∷ errs) (job ∷ rest) c l (n, ns) e =
      let (a, r, b) = polls-IsSent errs rest (sent_one err job rest c) (omega arith) ns refl in
      subst (λ d. IsSent c (err ∷ errs) (job ∷ rest) (polls errs d))
        (sym (poll_first err job rest c e n))
        (
          a ∙ taken_head err job c.accepted (taken errs rest),
          r ∙ append_assoc c.reports ((job.cb, e_ok err) ∷ []) (told errs rest),
          b,
        )

  abbrev stacked : List Job → Client → Client
  stacked jobs c = record c { bufs = reverse jobs ++ c.bufs }

  write_ssl :
      (job : Job) (c : Client)
      → c.has_ssl ≡ true
      → write 0 job.base job.cb c ≡ record c { bufs = job ∷ c.bufs }
  unfolding write
  write_ssl job c h = ground arith

  writes-stacked :
      (jobs : List Job) (c : Client) → c.has_ssl ≡ true → writes jobs c ≡ stacked jobs c
  unfolding writes
  writes-stacked [] c h = refl
  writes-stacked (job ∷ rest) c h =
      ap (writes rest) (write_ssl job c h)
      ∙ writes-stacked rest _ h
      ∙ ap (λ q. record c { bufs = q })
          (sym (append_assoc (reverse rest) (job ∷ []) c.bufs)
            ∙ ap (λ r. r ++ c.bufs) (sym (reverse-cons job rest)))

  -- When jobs that are not empty are written to a TLS session whose queue is empty, and then as many
  -- polls find it writable, the jobs are taken in the reverse of their order, and each job's callback
  -- is told of success, whether `SSL_write` took its bytes or failed; none is kept for a new attempt.
  pub polls-writes :
      (errs : List ℕ) (jobs : List Job) (c : Client)
      → c.has_ssl ≡ true
      → c.bufs ≡ []
      → length errs ≡ length jobs
      → All (λ job. length job.base ≢ 0) (reverse jobs)
      → IsSent c errs (reverse jobs) (polls errs (writes jobs c))
  polls-writes errs jobs c h e l n =
      subst (λ d. IsSent c errs (reverse jobs) (polls errs d)) (sym (writes-stacked jobs c h))
        (polls-IsSent errs (reverse jobs) (stacked jobs c) (l ∙ sym (length-reverse jobs)) n
          (ap (λ q. reverse jobs ++ q) e ∙ append-nil (reverse jobs)))
