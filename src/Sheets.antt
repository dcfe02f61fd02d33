-- ===== src/Sheets.antt =====
-- src/capabilities/google-drive/spreadsheet/: addresses of the cells of a sheet.
pub mod Columns
mod Tests
