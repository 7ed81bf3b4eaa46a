-- ===== src/Transfer/Once/Tests.antt =====
-- The shims called on a library that keeps a list of its calls.
use vapaa.Prelude.{
  ◌≡◌, refl, ◌∙◌, inl, inr, ℕ, ◌*◌, Option, Option-cases, List, ◌∷◌, map, ℤ, pos, neg, pos_part,
}
use vapaa.Handles.{comm_f2c}
use vapaa.Run.{Returns}
use vapaa.Mpi.Laws.{TypeInfo, hvector_disps, hindexed_disps}
use vapaa.Mpi.Sample.{World, view, sample, sample_laws, derived, handle_lib}
use vapaa.Cfi.Quiet.{IsQuiet}
use vapaa.Cfi.Tests.{world, desc}
use vapaa.Transfer.{Messages, Env, started, cfi_bcast}
use vapaa.Transfer.Tests.{messages}
use vapaa.Transfer.Collectives.{cfi_gather, cfi_scatter}
use vapaa.Transfer.Collectives.Tests.{mixed, flat, stype, scattered-IsSide, flat-IsSide}
use vapaa.Transfer.PointToPoint.{cfi_isend}
use vapaa.Transfer.PointToPoint.Tests.{matched}
use vapaa.Transfer.Exchange.{IsSide}
use vapaa.Transfer.Once.{Posted, Told}
use vapaa.Transfer.Shims.{CalledOnce, StartedOnce, cfi_bcast-CalledOnce, cfi_isend-StartedOnce}
use vapaa.Transfer.Gathers.Once.{
  Exchanged, ToldBoth, ExchangedOnce, cfi_gather-ExchangedOnce, cfi_scatter-ExchangedOnce,
}

abbrev exchanging : ℤ → ℤ → ℤ → ℤ → ℤ → ℤ → World → ℤ × World
exchanging a n t b m s w =
    (pos 0, record w { exchanges = ((a, n, view w t), (b, m, view w s), pos 0) ∷ w.exchanges })

abbrev keeping : Messages World
keeping = record messages {
  bcast = λ a n t root comm w. (pos 0, record w { posts = ((a, n, view w t), pos 0) ∷ w.posts });
  isend = λ a n t dest tag comm w. record {
    rc = pos 0;
    handle = pos 7;
    world = record w { starts = ((a, n, view w t), pos 0, pos 7) ∷ w.starts };
  };
  gather = λ a n t b m s root comm. exchanging a n t b m s;
  scatter = λ a n t b m s root comm. exchanging a n t b m s;
}

abbrev keeper : Env World
keeper = record mixed { messages = keeping }

abbrev posted : ℤ × ℤ × Option TypeInfo → Posted
posted (a, n, i) = record { address = a; count = n; described = i }

abbrev posts : World → List (Posted × ℤ)
posts w = map (λ p. (posted p.0, p.1)) w.posts

abbrev starts : World → List (Posted × (ℤ × ℤ))
starts w = map (λ p. (posted p.0, (p.1, p.2))) w.starts

abbrev exchanges : World → List Exchanged
exchanges w = map (λ p. ((posted p.0, posted p.1), p.2)) w.exchanges

-- Making a datatype changes nothing that does not look at the datatypes.
derived-same :
    {A : Type 0} (look : World → A)
    → ((w : World) (types : ℕ → Option TypeInfo) (n : ℕ)
        → look (record w { types = types; next = n }) ≡ look w)
    → (disps : TypeInfo → List ℤ) (size : TypeInfo → ℕ) (old : ℤ) (w : World)
    → look (derived disps size old w).world ≡ look w
derived-same look blind disps size old w = elim (Option-cases (view w old)) [
  | inl gone ↦ rw (gone, derived) refl
  | inr (i, e) ↦ rw (e, derived) (blind w _ _)
]

quiet_look :
    {A : Type 0} (look : World → A)
    → ((w : World) (types : ℕ → Option TypeInfo) (n : ℕ)
        → look (record w { types = types; next = n }) ≡ look w)
    → (before : A) → IsQuiet sample (λ w. look w ≡ before)
quiet_look look blind before = record {
  hvector = λ n b stride old w h.
      derived-same look blind (hvector_disps (pos_part n) (pos_part b) stride)
        (λ i. pos_part n * pos_part b * i.size) old w
      ∙ h;
  hindexed = λ n bs ds old w h.
      derived-same look blind (hindexed_disps ds) (λ i. pos_part n * i.size) old w ∙ h;
  commit = λ t w h. h;
  free = λ t w h. blind w _ _ ∙ h;
}

bcasts-Told :
    Told keeper view posts (λ a n t. keeping.bcast a n t (pos 0) (comm_f2c handle_lib (neg 1000)))
bcasts-Told = record { quiet = quiet_look posts (λ w types n. refl); tells = λ a n t w. refl }

starts-Told :
    Told keeper view starts
      (λ a n t. started (keeping.isend a n t (pos 3) (pos 9) (comm_f2c handle_lib (neg 1000))))
starts-Told = record { quiet = quiet_look starts (λ w types n. refl); tells = λ a n t w. refl }

exchanges-ToldBoth : ToldBoth keeper view exchanges exchanging
exchanges-ToldBoth = record {
  quiet = quiet_look exchanges (λ w types n. refl);
  tells = λ a n t b m s w. refl;
}

scattered : IsSide keeper view desc 5 stype world
scattered = record {
  section = scattered-IsSide.section;
  element = scattered-IsSide.element;
  named = scattered-IsSide.named;
  enough = scattered-IsSide.enough;
  element_small = scattered-IsSide.element_small;
  total_small = scattered-IsSide.total_small;
}

flat_side : IsSide keeper view flat 5 stype world
flat_side = record {
  section = flat-IsSide.section;
  element = flat-IsSide.element;
  named = flat-IsSide.named;
  enough = flat-IsSide.enough;
  element_small = flat-IsSide.element_small;
  total_small = flat-IsSide.total_small;
}

cfi_bcast-CalledOnce_example :
    Returns
      (CalledOnce keeper view desc 5 posts world)
      (cfi_bcast keeper desc (pos 5) (neg 30014) (pos 0) (neg 1000) world)
unfolding sample_laws
cfi_bcast-CalledOnce_example =
    cfi_bcast-CalledOnce keeper sample_laws (λ n b w. refl) desc 5 (neg 30014) world scattered
      (pos 0) (neg 1000) posts bcasts-Told (λ a n t u v. refl) (λ a n t v. refl)

cfi_isend-StartedOnce_example :
    Returns
      (StartedOnce keeper view desc 5 starts world)
      (cfi_isend keeper matched desc (pos 5) (neg 30014) (pos 3) (pos 9) (neg 1000) world)
unfolding sample_laws
cfi_isend-StartedOnce_example =
    cfi_isend-StartedOnce keeper sample_laws (λ n b w. refl) desc 5 (neg 30014) world scattered
      matched (pos 3) (pos 9) (neg 1000) starts starts-Told (λ a n t u v. refl) (λ a n t v. refl)

cfi_gather-ExchangedOnce_example :
    Returns
      (ExchangedOnce keeper view desc 5 flat 5 exchanges world)
      (cfi_gather keeper desc (pos 5) (neg 30014) flat (pos 5) (neg 30014) (pos 0) (neg 1000) world)
unfolding sample_laws
cfi_gather-ExchangedOnce_example =
    cfi_gather-ExchangedOnce keeper sample_laws (λ n b w. refl) desc 5 (neg 30014) flat 5
      (neg 30014) world scattered flat_side (pos 0) (neg 1000) exchanges exchanges-ToldBoth
      (λ a n t b m s u v. refl) (λ a n t b m s v. refl)

cfi_scatter-ExchangedOnce_example :
    Returns (ExchangedOnce keeper view desc 5 flat 5 exchanges world) (
      cfi_scatter keeper desc (pos 5) (neg 30014) flat (pos 5) (neg 30014) (pos 0) (neg 1000) world)
unfolding sample_laws
cfi_scatter-ExchangedOnce_example =
    cfi_scatter-ExchangedOnce keeper sample_laws (λ n b w. refl) desc 5 (neg 30014) flat 5
      (neg 30014) world scattered flat_side (pos 0) (neg 1000) exchanges exchanges-ToldBoth
      (λ a n t b m s u v. refl) (λ a n t b m s v. refl)
