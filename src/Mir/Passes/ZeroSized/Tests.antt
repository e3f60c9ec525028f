-- ===== src/Mir/Passes/ZeroSized/Tests.antt =====
-- `RemoveZst` on a concrete body.
use kli.Prelude.{◌≡◌, refl, true, false, some, [], ◌∷◌, All}
use kli.Prelude.Outcome.{ok}
use kli.Types.{Ty, nil, Ctxt, variant_def}
use kli.Lex.Tokens.{SrcLoc}
use kli.Mir.Syntax.{
  Local, load, constant, Place, PlaceBase, use_of, return, noop, assign, print, temp, Body,
}
use kli.Layout.Size.{align_to}
use kli.Layout.Aggregate.{
  record_layout, aggregate_layout, place_fields, sort_fields, enumerate, start,
}
use kli.Mir.Places.{const_zero_sized}
use kli.Mir.Passes.ZeroSized.{place_zst, remove_zst}
use kli.Mir.Passes.ZeroSized.Solid.{IsSolidBlock, remove_zst-IsSolidBlock}

abbrev plain_ctxt : Ctxt
plain_ctxt = record {
  type_def = λ _. record { name = 0; kind = variant_def [] };
  type_of = λ _. Ty.never;
  same_module = λ _ _. true;
  is_opaque = λ _. false;
  is_type_recursive = λ _. false;
}

abbrev somewhere : SrcLoc
somewhere = record { line = 1; file = 0 }

abbrev place_of : Local → Place
place_of l = record { base = PlaceBase.local l; projections = [] }

-- The first local is the empty tuple, and the second a truth value.
abbrev moving : Body
moving = record {
  src = 0;
  return_type = Ty.bool;
  locals = record { ty = Ty.tuple nil; kind = temp } ∷ record { ty = Ty.bool; kind = temp } ∷ [];
  blocks =
      record {
        stmts =
            record { loc = somewhere; kind = assign (place_of 0) (use_of (load (place_of 0))) }
            ∷ record { loc = somewhere; kind = assign (place_of 1) (use_of (load (place_of 1))) }
            ∷ record { loc = somewhere; kind = print (load (place_of 0)) false }
            ∷ [];
        terminator = some (record { src_info = somewhere; kind = return });
      }
      ∷ [];
}

empty_tuple : place_zst plain_ctxt 2 moving.locals Ty.bool (place_of 0) ≡ ok (Ty.tuple nil, true)
unfolding place_zst record_layout aggregate_layout place_fields sort_fields enumerate align_to start
empty_tuple = refl

truth_value : place_zst plain_ctxt 2 moving.locals Ty.bool (place_of 1) ≡ ok (Ty.bool, false)
unfolding place_zst
truth_value = refl

remove_zst-moving :
    remove_zst plain_ctxt 2 moving
    ≡ ok (record moving {
      blocks =
          record {
            stmts =
                record { loc = somewhere; kind = noop }
                ∷ record {
                  loc = somewhere;
                  kind = assign (place_of 1) (use_of (load (place_of 1)));
                }
                ∷ record {
                  loc = somewhere;
                  kind = print (constant (const_zero_sized (Ty.tuple nil))) false;
                }
                ∷ [];
            terminator = some (record { src_info = somewhere; kind = return });
          }
          ∷ [];
    })
unfolding remove_zst record_layout aggregate_layout place_fields sort_fields enumerate align_to
    start
remove_zst-moving = refl

remove_zst-IsSolidBlock_example :
    (body : Body) × (remove_zst plain_ctxt 2 moving ≡ ok body)
    × All (IsSolidBlock plain_ctxt 2 moving.locals Ty.bool) body.blocks
remove_zst-IsSolidBlock_example = remove_zst-IsSolidBlock plain_ctxt 2 moving (
  (
    (
      ((_, empty_tuple), ((_, empty_tuple), tt)),
      (((_, truth_value), ((_, truth_value), tt)), (((_, empty_tuple), tt), tt)),
    ),
    (_, refl, tt),
  ),
  tt,
)
