-- ===== src/Composer/Warnings.antt =====
-- What a composed response tells of the services that gave no result.
use image_descriptor.Prelude.Number.{Number}
