-- ===== src/Tests/Problems.antt =====
-- A problem document whose error code holds capitals and an underscore.
use image_descriptor.Prelude.{String, none, some}
use image_descriptor.Prelude.Text.{codes}
use image_descriptor.Problems.{Raised, descriptor_error, handle}
use image_descriptor.Problems.Shape.{IsProblem, handle-IsProblem}

abbrev missing : Raised String
missing = descriptor_error 404 "NOT_FOUND" "no such image" none

handle-IsProblem_example : IsProblem (some (codes "c-1")) 404 (handle (some (codes "c-1")) missing)
handle-IsProblem_example = handle-IsProblem (some (codes "c-1")) missing
