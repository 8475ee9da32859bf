-- ===== src/ImageProcessor.antt =====
-- image_processor/: a console program that reads a 24-bit BMP file, applies the filters named on
-- the command line one after another, and writes the result.
pub mod Floats
pub mod Exception
pub mod Image
pub mod Filter
pub mod Io
pub mod Fabrics
pub mod Parser
pub mod Main
